-- ===== src/LightSwitch/Apart.antt =====
-- sketches/LightSwitchAC/LightSwitchAC.ino: what the interrupts change, apart from all else.
use smarthouse_arduino.Base.{ℕ, ◌≡◌, refl, sym, ap, ◌∙◌, false, List, [], ◌∷◌, arith}
use smarthouse_arduino.LightSwitch.Actions.{
  Action, set_button, set_direction, set_limit, set_target, set_delay, set_last_now, save, send,
  set_relay1, set_relay2, poll_relay1, poll_relay2, message_actions, later_actions, act, acts,
}
use smarthouse_arduino.LightSwitch.Executions.{Execution, execution_lem}
use smarthouse_arduino.LightSwitch.Node.{
  Eeprom, Node, on_zero_cross_detect, on_timer_dim_check, dimmer_process, eeprom_save,
}
use smarthouse_arduino.LightSwitch.Parts.{acts-receive, loop-later_actions, later_actions-Alike}
use smarthouse_arduino.LightSwitch.Sketch.{
  Incoming, Inputs, receive, loop, Event, message, pass, zero_crossing, timer_tick, step, steps,
}

-- The messages and the passes of a history.
abbrev pub own : List Event → List Event
own [] = []
own (message m ∷ es) = message m ∷ own es
own (pass i ∷ es) = pass i ∷ own es
own (zero_crossing ∷ es) = own es
own (timer_tick ∷ es) = own es

module _ (e : Eeprom) where
  -- The node without what the interrupts write: the triac's pin, the flag and the counter.
  abbrev pub quiet : Node e → Node e
  quiet s = record s { zero_cross = false; step_counter = 0; output_ac = false }

  act-quiet : (a : Action) (s : Node e) → act e a (quiet s) ≡ quiet (act e a s)
  unfolding act eeprom_save
  act-quiet (set_button btn) s = refl
  act-quiet (set_direction up) s = refl
  act-quiet (set_limit n) s = refl
  act-quiet (set_target n) s = refl
  act-quiet (set_delay n) s = refl
  act-quiet (set_last_now n) s = refl
  act-quiet save s = refl
  act-quiet (send m) s = refl
  act-quiet (set_relay1 x) s = refl
  act-quiet (set_relay2 x) s = refl
  act-quiet (poll_relay1 p) s = refl
  act-quiet (poll_relay2 p) s = refl

  acts-quiet : (todo : List Action) (s : Node e) → acts e todo (quiet s) ≡ quiet (acts e todo s)
  unfolding acts
  acts-quiet [] s = refl
  acts-quiet (a ∷ todo) s = ap (acts e todo) (act-quiet a s) ∙ acts-quiet todo (act e a s)

  pub receive-quiet : (m : Incoming) (s : Node e) → receive e m (quiet s) ≡ quiet (receive e m s)
  unfolding message_actions
  receive-quiet m s =
      sym (acts-receive e m (quiet s))
      ∙ acts-quiet (message_actions e m s) s
      ∙ ap quiet (acts-receive e m s)

  fade-quiet :
      (now : ℕ) (s : Node e) → dimmer_process e now (quiet s) ≡ quiet (dimmer_process e now s)
  unfolding dimmer_process
  fade-quiet now s = ground arith

  pub loop-quiet : (i : Inputs) (s : Node e) → loop e i (quiet s) ≡ quiet (loop e i s)
  loop-quiet i s =
      let f = dimmer_process e i.now s in
      loop-later_actions e i (quiet s)
      ∙ ap (λ todo. acts e todo (dimmer_process e i.now (quiet s)))
          (later_actions-Alike e i s (quiet s) (refl, refl) refl refl)
      ∙ ap (acts e (later_actions e i s)) (fade-quiet i.now s)
      ∙ acts-quiet (later_actions e i s) f
      ∙ ap quiet (sym (loop-later_actions e i s))

  tick-quiet : (s : Node e) → quiet (on_timer_dim_check e s) ≡ quiet s
  unfolding on_timer_dim_check
  tick-quiet s = ground arith

  steps-quiet : (es : List Event) (s : Node e) → quiet (steps e es s) ≡ steps e (own es) (quiet s)
  unfolding steps step on_zero_cross_detect
  steps-quiet [] s = refl
  steps-quiet (message m ∷ es) s =
      steps-quiet es (receive e m s) ∙ ap (steps e (own es)) (sym (receive-quiet m s))
  steps-quiet (pass i ∷ es) s =
      steps-quiet es (loop e i s) ∙ ap (steps e (own es)) (sym (loop-quiet i s))
  steps-quiet (zero_crossing ∷ es) s = steps-quiet es (on_zero_cross_detect e s)
  steps-quiet (timer_tick ∷ es) s =
      steps-quiet es (on_timer_dim_check e s) ∙ ap (steps e (own es)) (tick-quiet s)

  -- Apart from the triac's pin, the flag of the zero crossing and the counter, an execution ends as its
  -- messages and passes alone do, one after the other, whatever interrupts come and wherever.
  pub interrupts_apart :
      {es : List Event} {s s' : Node e}
      → Execution e es s s'
      → quiet s' ≡ steps e (own es) (quiet s)
  interrupts_apart {es} {s} run = ap quiet (execution_lem e run) ∙ steps-quiet es s
