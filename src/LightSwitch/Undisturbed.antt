-- ===== src/LightSwitch/Undisturbed.antt =====
-- Presses and messages of a lamp whose passes and messages the triac's interrupts preempt.
use smarthouse_arduino.Base.{
  ℕ, ◌+◌, ◌-◌, ◌%◌, ◌≤◌, ◌<◌, ◌≡◌, refl, sym, ap, subst, ◌∙◌, true, some, if◌then◌else◌, List, [],
  ◌∷◌, ◌++◌, map, length,
}
use smarthouse_arduino.LightSwitch.Actions.{
  Action, action, Merge, merged, act_next, actions, acts, run_steps, act, interrupts, later_actions,
  write_actual,
}
use smarthouse_arduino.LightSwitch.Apart.{own, quiet, loop-quiet, receive-quiet, interrupts_apart}
use smarthouse_arduino.LightSwitch.Executions.{Execution, passed}
use smarthouse_arduino.LightSwitch.Fading.{Due}
use smarthouse_arduino.LightSwitch.Holding.{long_press_settles}
use smarthouse_arduino.LightSwitch.Interrupts.{fade_self}
use smarthouse_arduino.LightSwitch.Node.{
  Eeprom, IsEeprom, LampCallback, on_btn_long_press, on_btn_short_release, on_btn_long_release,
  Node, LampMessage, light_status, light_level, light_dimmer_convert, fade_delay_fast_ms,
  dimmer_high, dimmer_process,
}
use smarthouse_arduino.LightSwitch.Parts.{loop-later_actions}
use smarthouse_arduino.LightSwitch.Passes.{Tapped, IsResting}
use smarthouse_arduino.LightSwitch.Range.{InRange}
use smarthouse_arduino.LightSwitch.Sketch.{
  Incoming, Inputs, loop, receive, Event, message, pass, step, steps, ms_lamp_id, v_light,
}
use smarthouse_arduino.LightSwitch.Switching.{pass_time, remote_switch_arrives}
use smarthouse_arduino.LightSwitch.Tapping.{lamp_poll, loops, short_press_switches}
use smarthouse_arduino.NewButton.{short, long, no_callbacks, Callbacks}
use smarthouse_arduino.NewButton.Hold.{clock_mod, classify, IsIdle}
use smarthouse_arduino.NewButton.Press.{Poll, Holds, released, run}

Merge_alone : (todo : List Action) → Merge todo [] (map action todo)
Merge_alone [] = merged
Merge_alone (a ∷ todo) = act_next a (Merge_alone todo)

-- The callbacks that set-up registers.
abbrev pub lamp_callbacks : Callbacks LampCallback
lamp_callbacks = record no_callbacks {
  on_long_press = some on_btn_long_press;
  on_short_release = some on_btn_short_release;
  on_long_release = some on_btn_long_release;
}

-- The polls of a press, with the times of its first and last poll and of its release.
abbrev pub press_polls : ℕ → ℕ → ℕ → ℕ → List Poll → List Poll
press_polls from to now later ps =
    record { status = true; now = from % clock_mod; later = to % clock_mod }
    ∷ (ps ++ released now later ∷ [])

module _ (e : Eeprom) where
  run_steps-acts :
      (todo : List Action) (s : Node e) → run_steps e (map action todo) s ≡ acts e todo s
  unfolding run_steps acts
  run_steps-acts [] s = refl
  run_steps-acts (a ∷ todo) s = run_steps-acts todo (act e a s)

  -- A pass in which no interrupt comes.
  pub uninterrupted :
      {es : List Event} {s s' : Node e} (i : Inputs)
      → Execution e es (loop e i s) s'
      → Execution e (pass i ∷ es) s s'
  unfolding interrupts actions acts act
  uninterrupted {es} {s} {s'} i run =
      let todo = actions e i s in
      let f = dimmer_process e i.now s in
      passed i [] [] (map action todo) (Merge_alone todo) (
        subst (λ t. Execution e es t s')
          (loop-later_actions e i s
            ∙ ap (acts e (later_actions e i s)) (fade_self e i.now s)
            ∙ sym (run_steps-acts todo (write_actual e f s)))
          run)

  pub uninterrupted_loops :
      (is : List Inputs) (es : List Event) (s s' : Node e)
      → Execution e es (loops e is s) s'
      → Execution e (map pass is ++ es) s s'
  unfolding loops
  uninterrupted_loops [] es s s' run = run
  uninterrupted_loops (i ∷ is) es s s' run =
      uninterrupted i (uninterrupted_loops is es (loop e i s) s' run)

  passes-quiet :
      (is : List Inputs) (s : Node e) → steps e (map pass is) (quiet e s) ≡ quiet e (loops e is s)
  unfolding loops steps step
  passes-quiet [] s = refl
  passes-quiet (i ∷ is) s =
      ap (steps e (map pass is)) (loop-quiet e i s) ∙ passes-quiet is (loop e i s)

  loops_apart :
      {es : List Event} {s s' : Node e} (is : List Inputs)
      → Execution e es s s'
      → own es ≡ map pass is
      → quiet e s' ≡ quiet e (loops e is s)
  loops_apart {es} {s} is run own_passes =
      interrupts_apart e run ∙ ap (λ es'. steps e es' (quiet e s)) own_passes ∙ passes-quiet is s

  -- Over a whole short press of the idle button of a lamp that rests, at DIMMER_HIGH or at a limit of at
  -- most DIMMER_HIGH, with passes of the main loop that interrupts preempt anywhere, and no messages: a
  -- lamp at DIMMER_HIGH goes for its limit and any other for DIMMER_HIGH, the limit stays, the status is
  -- sent once, and the button is idle again. The press is as in `run_press`, and the button has the
  -- callbacks of set-up.
  pub interrupted_short_press :
      {es : List Event} {s s' : Node e} (from to last now later : ℕ) (ps : List Poll)
      (is : List Inputs)
      → Execution e es s s'
      → own es ≡ map pass is
      → s.button.callbacks ≡ lamp_callbacks
      → IsResting e s
      → IsIdle s.button
      → s.button.short_press_time ≤ s.button.long_press_time
      → 0 < from % clock_mod
      → from ≤ to
      → to < from + clock_mod
      → Holds from to last ps
      → classify s.button (last - from) ≡ short
      → map lamp_poll is ≡ press_polls from to now later ps
      → Tapped e s s' × IsIdle s'.button
  interrupted_short_press {es} {s} {s'} from to last now later ps is run own_passes c r idle order p
        h l holds short_hold polls =
      let same = loops_apart is run own_passes in
      let (t, after) =
        short_press_switches e s from to last now later ps is c r idle order p h l holds short_hold
          polls in
      (
        record {
          new_target = ap (λ (n : Node e). n.dimmer.target) same ∙ t.new_target;
          kept_limit = ap (λ (n : Node e). n.dimmer.limit) same ∙ t.kept_limit;
          new_sent = ap (λ (n : Node e). n.sent) same ∙ t.new_sent;
        },
        subst IsIdle (sym (ap (λ (n : Node e). n.button) same)) after,
      )

  -- With levels of at most DIMMER_HIGH: after a message that switches the lamp, and at least DIMMER_HIGH
  -- passes of the main loop in which its button calls nothing, each at least the fast delay after the one
  -- before, all of which interrupts preempt anywhere, the lamp is at its limit if the message was true
  -- and else at DIMMER_HIGH, and that status is the one message sent.
  pub interrupted_switch :
      {es : List Event} {s s' : Node e} (m : Incoming) (is : List Inputs)
      → Execution e es s s'
      → own es ≡ message m ∷ map pass is
      → m.sensor ≡ ms_lamp_id
      → m.type ≡ v_light
      → InRange e s
      → (run s.button (map lamp_poll is)).1 ≡ []
      → Due fade_delay_fast_ms s.dimmer_last_now (map pass_time is)
      → dimmer_high ≤ length is
      → (s'.dimmer.actual ≡ (if m.bool then s.dimmer.limit else dimmer_high))
        × (s'.sent ≡ light_status (if m.bool then 1 else 0) ∷ s.sent)
  unfolding steps step
  interrupted_switch {es} {s} {s'} m is run own_events sensor type range none due many =
      let same =
        interrupts_apart e run
        ∙ ap (λ es'. steps e es' (quiet e s)) own_events
        ∙ ap (steps e (map pass is)) (receive-quiet e m s)
        ∙ passes-quiet is (receive e m s) in
      let (arrived, told) = remote_switch_arrives e m s is sensor type range none due many in
      (ap (λ (n : Node e). n.dimmer.actual) same ∙ arrived, ap (λ (n : Node e). n.sent) same ∙ told)

module _ (e : Eeprom) where
  -- A lamp at rest at its limit, which is stored and was the last that the controller was told, with its
  -- button idle.
  abbrev pub HasSettled : Node e → Type 0
  HasSettled s =
      (s.dimmer.actual ≡ s.dimmer.target)
      × (s.dimmer.limit ≡ s.dimmer.actual)
      × (e.read s.rom ≡ s.dimmer.actual)
      × ((older : List LampMessage) × (s.sent
            ≡ light_status 1 ∷ (light_level (light_dimmer_convert s.dimmer.actual) ∷ older)))
      × IsIdle s.button

module _ {e : Eeprom} (doc : IsEeprom e) where
  -- Over a whole long press of the idle button of a lamp whose levels are at most DIMMER_HIGH, with passes
  -- of the main loop that interrupts preempt anywhere, and no messages: in the end the lamp rests at its
  -- level, which is the new limit and is stored, the last two messages are that level and a status of 1,
  -- and the button is idle again. The press is as in `run_press`, the button has the callbacks of set-up,
  -- and the memory behaves as documented.
  pub interrupted_long_press :
      {es : List Event} {s s' : Node e} (from to last now later : ℕ) (ps : List Poll)
      (is : List Inputs)
      → Execution e es s s'
      → own es ≡ map pass is
      → s.button.callbacks ≡ lamp_callbacks
      → InRange e s
      → IsIdle s.button
      → s.button.short_press_time ≤ s.button.long_press_time
      → 0 < from % clock_mod
      → from ≤ to
      → to < from + clock_mod
      → Holds from to last ps
      → classify s.button (last - from) ≡ long
      → map lamp_poll is ≡ press_polls from to now later ps
      → HasSettled e s'
  interrupted_long_press {es} {s} {s'} from to last now later ps is run own_passes c range idle
        order p h l holds long_hold polls =
      subst (HasSettled e) (sym (loops_apart e is run own_passes)) (
        long_press_settles doc s from to last now later ps is c range idle order p h l holds
          long_hold polls)
