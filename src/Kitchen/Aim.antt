-- ===== src/Kitchen/Aim.antt =====
-- Where the LEDs are heading, and what a pass of the main loop does to it.
use smarthouse_arduino.Base.{
  ℕ, ◌≡◌, ◌⊎◌, refl, ◌∙◌, inl, inr, Bool, true, false, not, List, [], ◌∷◌, arith, if◌then◌else◌,
}
use smarthouse_arduino.Kitchen.Board.{Board, IsBoard}
use smarthouse_arduino.Kitchen.Leds.{
  leds_color_fade, leds_white_fade, leds_start_transition, leds_process, led_process_one,
  led_process_loop, leds_update, leds_fade_from, is_leds_at,
}
use smarthouse_arduino.Kitchen.Sketch.{
  Callback, on_btn_short_release, on_btn_long_press, call, call_all, change_mode, loop,
}
use smarthouse_arduino.Kitchen.State.{TransitionRunning, Kitchen, trans_run, set_trans_run}
use smarthouse_arduino.Kitchen.Types.{Rgbw, LedType, color, white, IsByteColor}
use smarthouse_arduino.NewButton.{NewButton, process}

-- The end that a transition moves to.
abbrev pub goal : TransitionRunning → Rgbw
goal x = if x.direction then x.transition.stop else x.transition.start

module _ {b : Board} (doc : IsBoard b) where
  -- The LEDs of one kind come to rest at a colour.
  abbrev pub AimsAt : LedType → Rgbw → Kitchen b → Type 0
  AimsAt color c s =
      (doc.destination s.led_r ≡ c.r)
      × (doc.destination s.led_g ≡ c.g)
      × (doc.destination s.led_b ≡ c.b)
  AimsAt white c s = doc.destination s.led_w ≡ c.w

  pub record IsAimed (t : LedType) (s : Kitchen b) : Type 0 where
    pub aims : (trans_run b t s).running ≡ true → AimsAt t (goal (trans_run b t s)) s
    pub bytes :
        (trans_run b t s).running ≡ true
        → IsByteColor (trans_run b t s).transition.start
          × IsByteColor (trans_run b t s).transition.stop

  -- A stopped transition.
  pub stopped-IsAimed :
      (t : LedType) (s : Kitchen b) → (trans_run b t s).running ≡ false → IsAimed t s
  stopped-IsAimed t s h = record { aims = λ r. cc (h, r); bytes = λ r. cc (h, r) }

  pub fade_from-AimsAt :
      (t : LedType) (c c' : Rgbw) (time : ℕ) (s : Kitchen b)
      → IsByteColor c'
      → AimsAt t c' (leds_fade_from b t c c' time s)
  unfolding leds_fade_from
  fade_from-AimsAt color c c' time s h = (
    doc.destination-fade _ c'.r time _ h.0,
    doc.destination-fade _ c'.g time _ h.1,
    doc.destination-fade _ c'.b time _ h.2,
  )
  fade_from-AimsAt white c c' time s h = doc.destination-fade _ c'.w time _ h.3

  -- The LEDs and the transition of one kind.
  abbrev pub part : LedType → Kitchen b → (b.Led × b.Led × b.Led) × TransitionRunning
  part color s = ((s.led_r, s.led_g, s.led_b), s.trans_color)
  part white s = ((s.led_w, s.led_w, s.led_w), s.trans_white)

  pub part-IsAimed :
      (t : LedType) (s s' : Kitchen b) → part t s' ≡ part t s → IsAimed t s → IsAimed t s'
  part-IsAimed color s s' h i = ground (arith, i.aims, i.bytes)
  part-IsAimed white s s' h i = ground (arith, i.aims, i.bytes)

  pub clock-IsAimed :
      (t : LedType) (s : Kitchen b) (now : ℕ) → IsAimed t s → IsAimed t (record s { clock = now })
  clock-IsAimed color s now i = part-IsAimed color s _ refl i
  clock-IsAimed white s now i = part-IsAimed white s _ refl i

  -- A fade of one kind of LED to the goal of its transition.
  abbrev pub faded : LedType → TransitionRunning → Rgbw → Kitchen b → Kitchen b
  faded t x from s = set_trans_run b t x (leds_fade_from b t from (goal x) x.transition.time s)

  goal-bytes :
      (x : TransitionRunning)
      → IsByteColor x.transition.start
      → IsByteColor x.transition.stop
      → IsByteColor (goal x)
  goal-bytes x h h' = ground (arith, h, h')

  faded-IsAimed :
      (t : LedType) (x : TransitionRunning) (from : Rgbw) (s : Kitchen b)
      → IsByteColor x.transition.start
      → IsByteColor x.transition.stop
      → IsAimed t (faded t x from s)
  unfolding leds_fade_from
  faded-IsAimed color x from s h h' = record {
    aims = λ r. fade_from-AimsAt color from (goal x) x.transition.time s (goal-bytes x h h');
    bytes = λ r. (h, h');
  }
  faded-IsAimed white x from s h h' = record {
    aims = λ r. fade_from-AimsAt white from (goal x) x.transition.time s (goal-bytes x h h');
    bytes = λ r. (h, h');
  }

  abbrev turned : TransitionRunning → TransitionRunning
  turned x = record x { direction = not x.direction }

  -- A pass turns the transition at its goal, or leaves everything.
  pub process_one-cases :
      (t : LedType) (s : Kitchen b)
      → ((led_process_one b t s ≡ faded t (turned (trans_run b t s)) (goal (trans_run b t s)) s)
          × ((trans_run b t s).running ≡ true))
        ⊎ (led_process_one b t s ≡ s)
  unfolding led_process_one
  process_one-cases t s = ground arith

  -- A looping transition that shows its goal turns.
  pub process_one-turns :
      (t : LedType) (s : Kitchen b)
      → (trans_run b t s).running ≡ true
      → (trans_run b t s).transition.is_loop ≡ true
      → is_leds_at b t (goal (trans_run b t s)) s ≡ true
      → led_process_one b t s ≡ faded t (turned (trans_run b t s)) (goal (trans_run b t s)) s
  unfolding led_process_one
  process_one-turns t s r l at_goal = ground arith

  pub faded_lem :
      (t : LedType) (x : TransitionRunning) (from : Rgbw) (s : Kitchen b)
      → trans_run b t (faded t x from s) ≡ x
  unfolding leds_fade_from
  faded_lem color x from s = refl
  faded_lem white x from s = refl

  pub turned-running :
      (t : LedType) (s : Kitchen b)
      → IsAimed t s
      → (trans_run b t s).running ≡ true
      → IsAimed t (faded t (turned (trans_run b t s)) (goal (trans_run b t s)) s)
  turned-running t s i r =
      let (h, h') = i.bytes r in
      faded-IsAimed t (turned (trans_run b t s)) (goal (trans_run b t s)) s h h'

  process_one-IsAimed :
      (t : LedType) (s : Kitchen b) → IsAimed t s → IsAimed t (led_process_one b t s)
  process_one-IsAimed t s i = elim (process_one-cases t s) [
    | inl (turns, r) ↦ rw turns (turned-running t s i r)
    | inr stays ↦ rw stays i
  ]

  unfoldable pub other : LedType → LedType
  other color = white
  other white = color

  pub process_other-part :
      (t : LedType) (s : Kitchen b) → part t (led_process_one b (other t) s) ≡ part t s
  unfolding led_process_one leds_fade_from other
  process_other-part color s = ground arith
  process_other-part white s = ground arith

  pub update-IsAimed : (t : LedType) (s : Kitchen b) → IsAimed t s → IsAimed t (leds_update b s)
  unfolding leds_update
  update-IsAimed color s i = record {
    aims = λ r.
        let (h, h', h'') = i.aims r in
        (
          doc.destination-update s.clock s.led_r ∙ h,
          doc.destination-update s.clock s.led_g ∙ h',
          doc.destination-update s.clock s.led_b ∙ h'',
        );
    bytes = i.bytes;
  }
  update-IsAimed white s i = record {
    aims = λ r. doc.destination-update s.clock s.led_w ∙ i.aims r;
    bytes = i.bytes;
  }

  process-IsAimed : (t : LedType) (s : Kitchen b) → IsAimed t s → IsAimed t (leds_process b s)
  unfolding leds_process led_process_loop other
  process-IsAimed color s i =
      let lit = leds_update b s in
      let half = led_process_one b color lit in
      part-IsAimed color half (led_process_one b white half) (process_other-part color half)
        (process_one-IsAimed color lit (update-IsAimed color s i))
  process-IsAimed white s i =
      let lit = leds_update b s in
      let half = led_process_one b color lit in
      process_one-IsAimed white half
        (part-IsAimed white lit half (process_other-part white lit) (update-IsAimed white s i))

  call-stops :
      (t : LedType) (f : Callback) (s : Kitchen b) → (trans_run b t (call b f s)).running ≡ false
  unfolding call leds_start_transition leds_color_fade leds_white_fade change_mode
  call-stops color on_btn_short_release s = ground arith
  call-stops white on_btn_short_release s = ground arith
  call-stops color on_btn_long_press s = ground arith
  call-stops white on_btn_long_press s = ground arith

  call_all-IsAimed :
      (t : LedType) (fs : List Callback) (s : Kitchen b) → IsAimed t s → IsAimed t (call_all b fs s)
  unfolding call_all
  call_all-IsAimed t [] s i = i
  call_all-IsAimed t (f ∷ fs) s i =
      call_all-IsAimed t fs (call b f s) (stopped-IsAimed t (call b f s) (call-stops t f s))

  pub loop-IsAimed :
      (t : LedType) (status : Bool) (now later : ℕ) (btn : NewButton Callback) (s : Kitchen b)
      → IsAimed t s
      → IsAimed t (loop b status now later (btn, s)).1
  unfolding loop
  loop-IsAimed t status now later btn s i =
      let calls = (process status now later btn).1 in
      let s' = record s { clock = later } in
      process-IsAimed t (call_all b calls s')
        (call_all-IsAimed t calls s' (clock-IsAimed t s later i))
