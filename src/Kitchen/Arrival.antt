-- ===== src/Kitchen/Arrival.antt =====
-- A pass of the main loop in which the LEDs of a running transition come to rest.
use smarthouse_arduino.Base.{
  ℕ, ◌≡◌, refl, ap, ◌∙◌, inl, inr, Bool, Bool-cases, true, false, not, some, List, [], arith,
  if◌then◌else◌, ==_refl,
}
use smarthouse_arduino.Kitchen.Aim.{
  goal, AimsAt, IsAimed, part-IsAimed, process_one-turns, faded_lem, update-IsAimed,
  process_other-part, other, clock-IsAimed, loop-IsAimed,
}
use smarthouse_arduino.Kitchen.Board.{Board, IsBoard}
use smarthouse_arduino.Kitchen.History.{Event, run}
use smarthouse_arduino.Kitchen.Leds.{
  led_process_one, is_leds_at, leds_process, leds_update, led_process_loop,
}
use smarthouse_arduino.Kitchen.Parsing.{Stdlib}
use smarthouse_arduino.Kitchen.Sketch.{Callback, setup, loop, call_all}
use smarthouse_arduino.Kitchen.State.{Kitchen, TransitionRunning, trans_run}
use smarthouse_arduino.Kitchen.Types.{LedType, color, white}
use smarthouse_arduino.NewButton.{NewButton, process}
use smarthouse_arduino.Kitchen.Turn.{transition_aims}

-- A looping transition turns, and any other stays.
abbrev pub heading : TransitionRunning → TransitionRunning
heading x = if x.transition.is_loop then record x { direction = not x.direction } else x

module _ {b : Board} (doc : IsBoard b) where
  -- No LED of the kind fades.
  abbrev pub AtRest : LedType → Kitchen b → Type 0
  AtRest color s =
      (doc.is_fading s.led_r ≡ false)
      × (doc.is_fading s.led_g ≡ false)
      × (doc.is_fading s.led_b ≡ false)
  AtRest white s = doc.is_fading s.led_w ≡ false

  -- At rest, the LEDs show the goal of their running transition.
  rest-is_leds_at :
      (t : LedType) (s : Kitchen b)
      → IsAimed doc t s
      → (trans_run b t s).running ≡ true
      → AtRest t s
      → is_leds_at b t (goal (trans_run b t s)) s ≡ true
  unfolding is_leds_at
  rest-is_leds_at color s i r (h, h', h'') =
      let (g, g', g'') = i.aims r in
      rw
        (
          doc.rests s.led_r h ∙ g,
          doc.rests s.led_g h' ∙ g',
          doc.rests s.led_b h'' ∙ g'',
          ==_refl (goal (trans_run b color s)).r,
          ==_refl (goal (trans_run b color s)).g,
          ==_refl (goal (trans_run b color s)).b,
        )
        refl
  rest-is_leds_at white s i r h =
      rw (doc.rests s.led_w h ∙ i.aims r, ==_refl (goal (trans_run b white s)).w)

  one_shot-stays :
      (t : LedType) (s : Kitchen b)
      → (trans_run b t s).transition.is_loop ≡ false
      → led_process_one b t s ≡ s
  unfolding led_process_one
  one_shot-stays t s h = ground (arith, h)

  one_heads :
      (t : LedType) (s : Kitchen b)
      → IsAimed doc t s
      → (trans_run b t s).running ≡ true
      → AtRest t s
      → trans_run b t (led_process_one b t s) ≡ heading (trans_run b t s)
  one_heads t s i r rest = elim (Bool-cases (trans_run b t s).transition.is_loop) [
    | inl l ↦
        let x = trans_run b t s in
        let turns = process_one-turns doc t s r l (rest-is_leds_at t s i r rest) in
        ap (trans_run b t) turns
        ∙ faded_lem doc t (record x { direction = not x.direction }) (goal x) s
        ∙ rw l refl
    | inr l ↦ ap (trans_run b t) (one_shot-stays t s l) ∙ rw l refl
  ]

  process_heads :
      (t : LedType) (s : Kitchen b)
      → IsAimed doc t s
      → (trans_run b t s).running ≡ true
      → AtRest t (leds_update b s)
      → trans_run b t (leds_process b s) ≡ heading (trans_run b t s)
  unfolding leds_process led_process_loop leds_update other
  process_heads color s i r rest =
      let lit = leds_update b s in
      let half = led_process_one b color lit in
      ap (λ p. p.1) (process_other-part doc color half)
      ∙ one_heads color lit (update-IsAimed doc color s i) r rest
  process_heads white s i r rest =
      let lit = leds_update b s in
      let half = led_process_one b color lit in
      let kept = process_other-part doc white lit in
      let kept_led = ap (λ p. p.0.0) kept in
      let kept_run = ap (λ p. p.1) kept in
      one_heads white half (part-IsAimed doc white lit half kept (update-IsAimed doc white s i))
        (ap (λ (x : TransitionRunning). x.running) kept_run ∙ r) (ap doc.is_fading kept_led ∙ rest)
      ∙ ap heading kept_run

  clocked_heads :
      (t : LedType) (s : Kitchen b) (now : ℕ)
      → IsAimed doc t s
      → (trans_run b t s).running ≡ true
      → AtRest t (leds_update b (record s { clock = now }))
      → trans_run b t (leds_process b (record s { clock = now })) ≡ heading (trans_run b t s)
  clocked_heads color s now i r rest =
      process_heads color (record s { clock = now }) (clock-IsAimed doc color s now i) r rest
  clocked_heads white s now i r rest =
      process_heads white (record s { clock = now }) (clock-IsAimed doc white s now i) r rest

  heading_running : (x : TransitionRunning) → (heading x).running ≡ x.running
  heading_running x = ground arith

  -- Over a board that behaves as documented, after any history from set-up that the parser survives: a
  -- pass of the main loop in which the button calls nothing, and whose update brings the LEDs of a running
  -- transition to rest or leaves them so, turns a looping transition and leaves any other as it was, and
  -- the LEDs are then set to come to rest at the end that it heads for.
  pub transition_turns :
      (c : Stdlib) (es : List Event) (s : Kitchen b) (btn btn' : NewButton Callback)
      (s' : Kitchen b) (t : LedType) (status : Bool) (now later : ℕ)
      → run b c es (btn, setup b s) ≡ some (btn', s')
      → (trans_run b t s').running ≡ true
      → AtRest t (leds_update b (record s' { clock = later }))
      → (process status now later btn').1 ≡ []
      → let s'' = (loop b status now later (btn', s')).1 in
        (trans_run b t s'' ≡ heading (trans_run b t s'))
        × AimsAt doc t (goal (trans_run b t s'')) s''
  unfolding loop call_all
  transition_turns c es s btn btn' s' t status now later h r rest none =
      let i = transition_aims doc c es s btn btn' s' t h in
      let clocked : Kitchen b = record s' { clock = later } in
      let heads : trans_run b t (loop b status now later (btn', s')).1
          ≡ heading (trans_run b t s') =
        ap (λ fs. trans_run b t (leds_process b (call_all b fs clocked))) none
        ∙ clocked_heads t s' later i r rest in
      let runs = ap (λ (x : TransitionRunning). x.running) heads ∙ heading_running _ ∙ r in
      (heads, (loop-IsAimed doc t status now later btn' s' i).aims runs)
