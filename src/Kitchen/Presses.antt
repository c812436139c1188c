-- ===== src/Kitchen/Presses.antt =====
-- What a press of the Kitchen button does: the callbacks of Kitchen.ino.
use smarthouse_arduino.Base.{
  ℕ, ◌≡◌, refl, inl, inr, Bool, true, false, List, [], ◌∷◌, ◌++◌, arith, if◌then◌else◌, Bool-cases,
  ◌↔◌,
}
use smarthouse_arduino.Kitchen.Aim.{AimsAt}
use smarthouse_arduino.Kitchen.Board.{Board, IsBoard}
use smarthouse_arduino.Kitchen.Leds.{fade_time_ms, led_values}
use smarthouse_arduino.Kitchen.Sketch.{
  change_mode, stop_transitions, long_press_handler, short_release_handler, switch_leds_by_button,
}
use smarthouse_arduino.Kitchen.State.{
  Kitchen, ButtonMode, both, only_color, only_white, Outgoing, v_light, color_leds_id, white_led_id,
}
use smarthouse_arduino.Kitchen.Store.{is_stored_equal}
use smarthouse_arduino.Kitchen.Types.{Rgbw, color, white, button, no_color, IsByteColor}

abbrev pub next : ButtonMode → ButtonMode
next both = only_color
next only_color = only_white
next only_white = both

-- Of the stored colour, what a long press in a mode shows.
abbrev pub part_of : ButtonMode → Rgbw → Rgbw
part_of both c = c
part_of only_color c = record c { w = 0 }
part_of only_white c = record no_color { w = c.w }

abbrev pub status_of : ℕ → ℕ → Outgoing
status_of sensor value = record { sensor = sensor; type = v_light; value = value }

-- The messages of a long press, newest first.
abbrev pub reports : ButtonMode → List Outgoing
reports both = status_of white_led_id 1 ∷ status_of color_leds_id 1 ∷ []
reports only_color = status_of color_leds_id 1 ∷ status_of white_led_id 0 ∷ []
reports only_white = status_of white_led_id 1 ∷ status_of color_leds_id 0 ∷ []

-- The messages of switching all LEDs on or off, newest first.
abbrev pub switch_reports : Bool → List Outgoing
switch_reports on =
    let value = if on then 1 else 0 in
    status_of white_led_id value ∷ status_of color_leds_id value ∷ []

module _ {b : Board} (doc : IsBoard b) where
  -- All LEDs come to rest at a colour, and no transition runs.
  pub record Shows (c : Rgbw) (s : Kitchen b) : Type 0 where
    pub colors : AimsAt doc color c s
    pub whites : AimsAt doc white c s
    pub no_color_run : s.trans_color.running ≡ false
    pub no_white_run : s.trans_white.running ≡ false

  -- Fades of all LEDs to a colour.
  fades-Shows :
      (c : Rgbw) (time : ℕ) (s s' : Kitchen b)
      → IsByteColor c
      → s'.led_r ≡ b.fade s.clock c.r time s.led_r
      → s'.led_g ≡ b.fade s.clock c.g time s.led_g
      → s'.led_b ≡ b.fade s.clock c.b time s.led_b
      → s'.led_w ≡ b.fade s.clock c.w time s.led_w
      → s'.trans_color.running ≡ false
      → s'.trans_white.running ≡ false
      → Shows c s'
  fades-Shows c time s s' h er eg eb ew stopped stopped' = record {
    colors = (
      rw er (doc.destination-fade s.clock c.r time s.led_r h.0),
      rw eg (doc.destination-fade s.clock c.g time s.led_g h.1),
      rw eb (doc.destination-fade s.clock c.b time s.led_b h.2),
    );
    whites = rw ew (doc.destination-fade s.clock c.w time s.led_w h.3);
    no_color_run = stopped;
    no_white_run = stopped';
  }

  change_mode-Shows :
      (m : ButtonMode) (s : Kitchen b)
      → IsByteColor s.storage.button_colors
      → let s' = change_mode b m (stop_transitions b s) in
        Shows (part_of m s.storage.button_colors) s'
        × (s'.button_mode ≡ next m)
        × (s'.sent ≡ reports m ++ s.sent)
        × (s'.storage ≡ s.storage)
  unfolding change_mode stop_transitions
  change_mode-Shows both s h = (
    fades-Shows s.storage.button_colors fade_time_ms s _ h refl refl refl refl refl refl,
    refl,
    refl,
    refl,
  )
  change_mode-Shows only_color s h = (
    fades-Shows (part_of only_color s.storage.button_colors) fade_time_ms s _
        (h.0, h.1, h.2, omega arith) refl refl refl refl refl refl,
    refl,
    refl,
    refl,
  )
  change_mode-Shows only_white s h = (
    fades-Shows (part_of only_white s.storage.button_colors) fade_time_ms s _
        (omega arith, omega arith, omega arith, h.3) refl refl refl refl refl refl,
    refl,
    refl,
    refl,
  )

  -- With a stored button colour of bytes and a board that behaves as documented, a long press stops
  -- every transition, brings the LEDs to the part of the stored button colour that the mode asks for,
  -- reports it to the controller, and goes to the next of the three modes. The storage stays.
  pub long_press-Shows :
      (s : Kitchen b)
      → IsByteColor s.storage.button_colors
      → let s' = long_press_handler b s in
        Shows (part_of s.button_mode s.storage.button_colors) s'
        × (s'.button_mode ≡ next s.button_mode)
        × (s'.sent ≡ reports s.button_mode ++ s.sent)
        × (s'.storage ≡ s.storage)
  unfolding long_press_handler
  long_press-Shows s h = change_mode-Shows s.button_mode s h

  -- Every LED has come to rest.
  pub record AllAtRest (s : Kitchen b) : Type 0 where
    pub rest_r : doc.is_fading s.led_r ≡ false
    pub rest_g : doc.is_fading s.led_g ≡ false
    pub rest_b : doc.is_fading s.led_b ≡ false
    pub rest_w : doc.is_fading s.led_w ≡ false

  abbrev pub Lit : Rgbw → Kitchen b → Type 0
  Lit c s = AimsAt doc color c s × AimsAt doc white c s

  pub is_stored_equal-Lit :
      (s : Kitchen b)
      → AllAtRest s
      → (is_stored_equal b button (led_values b s) s ≡ true) ↔ Lit s.storage.button_colors s
  unfolding is_stored_equal led_values
  is_stored_equal-Lit s r = ground (
    arith,
    doc.rests s.led_r r.rest_r,
    doc.rests s.led_g r.rest_g,
    doc.rests s.led_b r.rest_b,
    doc.rests s.led_w r.rest_w,
  )

  pub switch-Shows :
      (on : Bool) (s : Kitchen b)
      → IsByteColor s.storage.button_colors
      → let s' = switch_leds_by_button b on s in
        Shows (if on then s.storage.button_colors else no_color) s'
        × (s'.storage ≡ s.storage)
        × (s'.button_mode ≡ s.button_mode)
        × (s'.sent ≡ switch_reports on ++ s.sent)
  unfolding switch_leds_by_button
  switch-Shows true s h = (
    fades-Shows s.storage.button_colors fade_time_ms s _ h refl refl refl refl refl refl,
    refl,
    refl,
    refl,
  )
  switch-Shows false s h = (
    fades-Shows no_color fade_time_ms s _ (omega arith, omega arith, omega arith, omega arith) refl
        refl refl refl refl refl,
    refl,
    refl,
    refl,
  )

  -- With a stored button colour of bytes and a board that behaves as documented, a short press of LEDs
  -- at rest brings them to black if they show the stored button colour, and to that colour if they show
  -- anything else. No transition runs afterwards; storage and mode stay.
  pub short_release_toggles :
      (s : Kitchen b)
      → IsByteColor s.storage.button_colors
      → AllAtRest s
      → let s' = short_release_handler b s in
        (Lit s.storage.button_colors s → Shows no_color s')
        × (¬ Lit s.storage.button_colors s → Shows s.storage.button_colors s')
        × (s'.storage ≡ s.storage)
        × (s'.button_mode ≡ s.button_mode)
  unfolding short_release_handler
  short_release_toggles s h r =
      let (lit, back) = is_stored_equal-Lit s r in
      elim (Bool-cases (is_stored_equal b button (led_values b s) s)) [
        | inl e ↦
            let (shows, kept, same_mode, _) = switch-Shows false s h in
            rw e (λ l. shows, λ no. absurd (no (lit e)), kept, same_mode)
        | inr e ↦
            let (shows, kept, same_mode, _) = switch-Shows true s h in
            rw e (λ l. cc (e, back l), λ no. shows, kept, same_mode)
      ]
