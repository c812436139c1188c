-- ===== src/Kitchen/Status.antt =====
-- The status that the controller got of the Kitchen LEDs, and the handlers that report it.
use smarthouse_arduino.Base.{
  ℕ, ◌≡◌, refl, sym, ◌∙◌, Bool, true, false, not, Option, none, some, List, [], ◌∷◌, ◌==◌,
  if◌then◌else◌, arith,
}
use smarthouse_arduino.Kitchen.Aim.{AimsAt, part}
use smarthouse_arduino.Kitchen.Board.{Board, IsBoard}
use smarthouse_arduino.Kitchen.Leds.{
  leds_color_fade, leds_white_fade, leds_set_transition, leds_start_transition, leds_fade_from,
  leds_setup, fade_time_ms, led_values,
}
use smarthouse_arduino.Kitchen.Networking.{
  Incoming, on_message_set_limit, on_message_set_transition, on_message_light,
}
use smarthouse_arduino.Kitchen.Remote.{sensor_of}
use smarthouse_arduino.Kitchen.Sketch.{
  Callback, on_btn_short_release, on_btn_long_press, setup, call, call_all, change_mode,
  stop_transitions, short_release_handler, long_press_handler, switch_leds_by_button,
}
use smarthouse_arduino.Kitchen.State.{
  Kitchen, ButtonMode, both, only_color, only_white, Outgoing, trans_run, network_send_color_status,
  network_send_white_status,
}
use smarthouse_arduino.Kitchen.Store.{
  save_color_leds, save_white_leds, restore_color_leds, restore_white_leds, is_stored_equal,
}
use smarthouse_arduino.Kitchen.Types.{
  Rgbw, LedType, color, white, SwitchingSource, external, button, Transition, no_color,
}

-- The newest value that was sent for a sensor.
abbrev pub newest : ℕ → List Outgoing → Option ℕ
newest sensor [] = none
newest sensor (m ∷ ms) = if m.sensor == sensor then some m.value else newest sensor ms

module _ {b : Board} (doc : IsBoard b) where
  abbrev pub status : LedType → Kitchen b → Option ℕ
  status t s = newest (sensor_of t) s.sent

  -- LEDs of a kind that come to rest at black, with no transition.
  abbrev pub IsDark : LedType → Kitchen b → Type 0
  IsDark t s = AimsAt doc t no_color s × ((trans_run b t s).running ≡ false)

  pub record IsHonest (t : LedType) (s : Kitchen b) : Type 0 where
    pub off : status t s ≡ some 0 → IsDark t s

  lit-IsHonest : (t : LedType) (s : Kitchen b) → status t s ≡ some 1 → IsHonest t s
  lit-IsHonest t s h = record { off = λ r. cc (h, r) }

  dark-IsHonest : (t : LedType) (s : Kitchen b) → IsDark t s → IsHonest t s
  dark-IsHonest t s h = record { off = λ r. h }

  pub kept-IsHonest :
      (t : LedType) (s s' : Kitchen b)
      → part doc t s' ≡ part doc t s
      → status t s' ≡ status t s
      → IsHonest t s
      → IsHonest t s'
  kept-IsHonest color s s' p e i = record { off = λ r. ground (arith, p, i.off (sym e ∙ r)) }
  kept-IsHonest white s s' p e i = record { off = λ r. ground (arith, p, i.off (sym e ∙ r)) }

  off_color :
      (now : ℕ) (l l' l'' : b.Led)
      → (doc.destination (b.fade now 0 fade_time_ms l) ≡ 0)
        × (doc.destination (b.fade now 0 fade_time_ms l') ≡ 0)
        × (doc.destination (b.fade now 0 fade_time_ms l'') ≡ 0)
  off_color now l l' l'' = (
    doc.destination-fade now 0 fade_time_ms l (omega arith),
    doc.destination-fade now 0 fade_time_ms l' (omega arith),
    doc.destination-fade now 0 fade_time_ms l'' (omega arith),
  )

  off_white : (now : ℕ) (l : b.Led) → doc.destination (b.fade now 0 fade_time_ms l) ≡ 0
  off_white now l = doc.destination-fade now 0 fade_time_ms l (omega arith)

  pub setup-IsHonest : (t : LedType) (s : Kitchen b) → IsHonest t (setup b s)
  unfolding setup leds_setup
  setup-IsHonest color s = dark-IsHonest color _ (off_color s.clock s.led_r s.led_g s.led_b, refl)
  setup-IsHonest white s = dark-IsHonest white _ (off_white s.clock s.led_w, refl)

  pub set_limit-IsHonest :
      (t : LedType) (sensor : ℕ) (c : Rgbw) (source : SwitchingSource) (s : Kitchen b)
      → IsHonest t s
      → IsHonest t (on_message_set_limit b sensor c source s)
  unfolding on_message_set_limit leds_start_transition leds_color_fade leds_white_fade
      save_color_leds save_white_leds network_send_color_status network_send_white_status
  set_limit-IsHonest color sensor c external s i = ground (arith, i.off)
  set_limit-IsHonest color sensor c button s i = ground (arith, i.off)
  set_limit-IsHonest white sensor c external s i = ground (arith, i.off)
  set_limit-IsHonest white sensor c button s i = ground (arith, i.off)

  pub set_transition-IsHonest :
      (t : LedType) (sensor : ℕ) (x : Transition) (s : Kitchen b)
      → IsHonest t s
      → IsHonest t (on_message_set_transition b sensor x s)
  unfolding on_message_set_transition leds_set_transition leds_start_transition leds_fade_from
      network_send_color_status network_send_white_status
  set_transition-IsHonest color sensor x s i = ground (arith, i.off)
  set_transition-IsHonest white sensor x s i = ground (arith, i.off)

  pub light-IsHonest :
      (t : LedType) (m : Incoming) (s : Kitchen b)
      → IsHonest t s
      → IsHonest t (on_message_light b m s)
  unfolding on_message_light leds_start_transition leds_color_fade leds_white_fade
      restore_color_leds restore_white_leds
  light-IsHonest color m s i = ground (
    arith,
    i.off,
    doc.destination-fade s.clock 0 fade_time_ms s.led_r,
    doc.destination-fade s.clock 0 fade_time_ms s.led_g,
    doc.destination-fade s.clock 0 fade_time_ms s.led_b,
  )
  light-IsHonest white m s i =
      ground (arith, i.off, doc.destination-fade s.clock 0 fade_time_ms s.led_w)

  mode-IsHonest :
      (t : LedType) (m : ButtonMode) (s : Kitchen b)
      → IsHonest t (change_mode b m (stop_transitions b s))
  unfolding change_mode stop_transitions
  mode-IsHonest color both s = lit-IsHonest color _ refl
  mode-IsHonest white both s = lit-IsHonest white _ refl
  mode-IsHonest color only_color s = lit-IsHonest color _ refl
  mode-IsHonest white only_color s = dark-IsHonest white _ (off_white s.clock s.led_w, refl)
  mode-IsHonest color only_white s =
      dark-IsHonest color _ (off_color s.clock s.led_r s.led_g s.led_b, refl)
  mode-IsHonest white only_white s = lit-IsHonest white _ refl

  switch-IsHonest :
      (t : LedType) (on : Bool) (s : Kitchen b) → IsHonest t (switch_leds_by_button b on s)
  unfolding switch_leds_by_button
  switch-IsHonest color true s = lit-IsHonest color _ refl
  switch-IsHonest white true s = lit-IsHonest white _ refl
  switch-IsHonest color false s =
      dark-IsHonest color _ (off_color s.clock s.led_r s.led_g s.led_b, refl)
  switch-IsHonest white false s = dark-IsHonest white _ (off_white s.clock s.led_w, refl)

  call-IsHonest : (t : LedType) (f : Callback) (s : Kitchen b) → IsHonest t (call b f s)
  unfolding call short_release_handler long_press_handler
  call-IsHonest t on_btn_short_release s =
      switch-IsHonest t (not (is_stored_equal b button (led_values b s) s)) s
  call-IsHonest t on_btn_long_press s = mode-IsHonest t s.button_mode s

  pub call_all-IsHonest :
      (t : LedType) (fs : List Callback) (s : Kitchen b)
      → IsHonest t s
      → IsHonest t (call_all b fs s)
  unfolding call_all
  call_all-IsHonest t [] s i = i
  call_all-IsHonest t (f ∷ fs) s i = call_all-IsHonest t fs (call b f s) (call-IsHonest t f s)
