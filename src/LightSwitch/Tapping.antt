-- ===== src/LightSwitch/Tapping.antt =====
-- The lamp's button and the dimmer together: passes of the main loop over a short press.
use smarthouse_arduino.Base.{
  ℕ, ◌+◌, ◌-◌, ◌%◌, ◌≤◌, ◌<◌, ◌≡◌, refl, ap, ◌∙◌, inl, inr, true, some, List, [], ◌∷◌, ◌++◌, map,
  append_none, append_one,
}
use smarthouse_arduino.LightSwitch.Node.{
  Eeprom, LampCallback, on_btn_long_press, on_btn_short_release, on_btn_long_release, Node,
}
use smarthouse_arduino.LightSwitch.Sketch.{Inputs, loop}
use smarthouse_arduino.NewButton.{process, short, Callbacks, no_callbacks}
use smarthouse_arduino.NewButton.Hold.{clock_mod, classify, IsIdle}
use smarthouse_arduino.NewButton.Calls.{PressCalls}
use smarthouse_arduino.NewButton.Press.{Poll, Holds, released, run, run_press}
use smarthouse_arduino.LightSwitch.Passes.{
  Calm, Tapped, IsResting, loop-button, loop_none, loop_tap, Calm-IsResting, Calm-Calm, Calm-Tapped,
  Tapped-Calm,
}

-- The poll of the lamp's button in a pass.
abbrev pub lamp_poll : Inputs → Poll
lamp_poll i = record { status = i.lamp.level; now = i.lamp.now; later = i.lamp.later }

-- A short press makes one call.
short_calls :
    (c : Callbacks LampCallback) (calls : List LampCallback)
    → c ≡ record no_callbacks {
      on_long_press = some on_btn_long_press;
      on_short_release = some on_btn_short_release;
      on_long_release = some on_btn_long_release;
    }
    → PressCalls c short calls
    → calls ≡ on_btn_short_release ∷ []
short_calls c calls e h = rw (h, e) refl

module _ (e : Eeprom) where
  unfoldable pub loops : List Inputs → Node e → Node e
  loops [] s = s
  loops (i ∷ is) s = loops is (loop e i s)

  pub loops_button :
      (is : List Inputs) (s : Node e) → (loops is s).button ≡ (run s.button (map lamp_poll is)).0
  unfolding loops run
  loops_button [] s = refl
  loops_button (i ∷ is) s =
      loops_button is (loop e i s) ∙ ap (λ btn. (run btn (map lamp_poll is)).0) (loop-button e i s)

  pub loops_none :
      (is : List Inputs) (s : Node e)
      → (run s.button (map lamp_poll is)).1 ≡ []
      → Calm e s (loops is s)
  unfolding loops run
  loops_none [] s h = record {
    same_target = refl;
    same_limit = refl;
    same_sent = refl;
    at_rest = λ _. refl;
  }
  loops_none (i ∷ is) s h =
      let (now_none, later_none) = append_none _ _ h in
      let rest = ap (λ btn. (run btn (map lamp_poll is)).1) (loop-button e i s) ∙ later_none in
      Calm-Calm e s (loop e i s) _ (loop_none e i s now_none) (loops_none is (loop e i s) rest)

  loops_tap :
      (is : List Inputs) (s : Node e)
      → (run s.button (map lamp_poll is)).1 ≡ on_btn_short_release ∷ []
      → IsResting e s
      → Tapped e s (loops is s)
  unfolding loops run
  loops_tap [] s h r = cc h
  loops_tap (i ∷ is) s h r =
      let btn = (process i.lamp.level i.lamp.now i.lamp.later s.button).0 in
      let s' = loop e i s in
      let same_calls = ap (λ b. (run b (map lamp_poll is)).1) (loop-button e i s) in
      elim (append_one (process i.lamp.level i.lamp.now i.lamp.later s.button).1
        (run btn (map lamp_poll is)).1 on_btn_short_release h) [
          | inl (now_none, later_tap) ↦
              let calm = loop_none e i s now_none in
              Calm-Tapped e s s' _ calm
                (loops_tap is s' (same_calls ∙ later_tap) (Calm-IsResting e s s' calm r))
          | inr (now_tap, later_none) ↦
              Tapped-Calm e s s' _ (loop_tap e i s now_tap r)
                (loops_none is s' (same_calls ∙ later_none))
        ]

  -- Passes of the main loop over a whole short press of the idle button of a lamp that rests, at
  -- DIMMER_HIGH or at a limit of at most DIMMER_HIGH: a lamp at DIMMER_HIGH goes for its limit and any
  -- other for DIMMER_HIGH, the limit stays, the status is sent once, and the button is idle again. The
  -- press is as in `run_press`, and the button has the callbacks of set-up.
  pub short_press_switches :
      (s : Node e) (from to last now later : ℕ) (ps : List Poll) (is : List Inputs)
      → s.button.callbacks ≡ record no_callbacks {
        on_long_press = some on_btn_long_press;
        on_short_release = some on_btn_short_release;
        on_long_release = some on_btn_long_release;
      }
      → IsResting e s
      → IsIdle s.button
      → s.button.short_press_time ≤ s.button.long_press_time
      → 0 < from % clock_mod
      → from ≤ to
      → to < from + clock_mod
      → Holds from to last ps
      → classify s.button (last - from) ≡ short
      → map lamp_poll is
        ≡ record { status = true; now = from % clock_mod; later = to % clock_mod }
          ∷ (ps ++ released now later ∷ [])
      → Tapped e s (loops is s) × IsIdle (loops is s).button
  short_press_switches s from to last now later ps is e rest idle order p h l holds c polls =
      let (done, calls) = run_press s.button from to last now later ps idle order p h l holds in
      (
        loops_tap is s (rw polls (short_calls s.button.callbacks _ e (rw c at calls))) rest,
        rw (loops_button is s, polls) done,
      )
