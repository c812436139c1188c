-- ===== src/LightSwitch/Executions.antt =====
-- sketches/LightSwitchAC/LightSwitchAC.ino: executions with interrupts in the middle of the passes.
use smarthouse_arduino.Base.{◌≡◌, refl, sym, ap, ◌∙◌, subst, List, [], ◌∷◌, ◌++◌, map}
use smarthouse_arduino.LightSwitch.Actions.{
  Interrupt, crossing, tick, event_of, Step, Merge, actions, message_actions, interrupt, interrupts,
  run_steps, write_actual,
}
use smarthouse_arduino.LightSwitch.Interrupts.{interrupted_pass, interrupted_message}
use smarthouse_arduino.LightSwitch.Node.{Eeprom, IsEeprom, Node, dimmer_high, dimmer_process}
use smarthouse_arduino.LightSwitch.Range.{InRange, levels-InRange}
use smarthouse_arduino.LightSwitch.Saved.{capped, power_cycle_limit}
use smarthouse_arduino.LightSwitch.Sketch.{
  Incoming, Inputs, Event, message, pass, step, steps, setup,
}

-- What the node does from one state to another, and the events that came, in the order in which each was
-- over or, for an interrupt, came. Of a pass, `before` interrupts the fade between its reading and its
-- write of the level, and `during` comes between the other actions, from the fade's write of its time on,
-- those of the callbacks included; of a message, `during` comes between its actions.
pub data Execution (e : Eeprom) : List Event → Node e → Node e → Type 0 where
  finished : {s : Node e} → Execution e [] s s
  interrupted :
      {es : List Event} {s s' : Node e} (x : Interrupt)
      → Execution e es (interrupt e x s) s'
      → Execution e (event_of x ∷ es) s s'
  received :
      {es : List Event} {s s' : Node e} (m : Incoming) (during : List Interrupt) (ss : List Step)
      → Merge (message_actions e m s) during ss
      → Execution e es (run_steps e ss s) s'
      → Execution e (message m ∷ (map event_of during ++ es)) s s'
  passed :
      {es : List Event} {s s' : Node e} (i : Inputs) (before during : List Interrupt)
      (ss : List Step)
      → Merge (actions e i s) during ss
      → Execution e es
          (run_steps e ss (write_actual e (dimmer_process e i.now s) (interrupts e before s)))
          s'
      → Execution e (map event_of before ++ (pass i ∷ (map event_of during ++ es))) s s'

module _ (e : Eeprom) where
  steps-append :
      (xs ys : List Event) (s : Node e) → steps e (xs ++ ys) s ≡ steps e ys (steps e xs s)
  unfolding steps
  steps-append [] ys s = refl
  steps-append (x ∷ xs) ys s = steps-append xs ys (step e x s)

  interrupt-step : (x : Interrupt) (s : Node e) → interrupt e x s ≡ step e (event_of x) s
  unfolding interrupt step
  interrupt-step crossing s = refl
  interrupt-step tick s = refl

  passed-steps :
      (i : Inputs) (before during : List Interrupt) (ss : List Step) (es : List Event) (s : Node e)
      → Merge (actions e i s) during ss
      → steps e es
          (run_steps e ss (write_actual e (dimmer_process e i.now s) (interrupts e before s)))
        ≡ steps e (map event_of before ++ (pass i ∷ (map event_of during ++ es))) s
  passed-steps i before during ss es s m =
      let ds = map event_of during in
      let start = steps e (map event_of before) s in
      ap (steps e es) (
        interrupted_pass e i before during ss s m
        ∙ steps-append (map event_of before) (pass i ∷ ds) s)
      ∙ sym (steps-append (pass i ∷ ds) es start)
      ∙ sym (steps-append (map event_of before) (pass i ∷ (ds ++ es)) s)

  received-steps :
      (m : Incoming) (during : List Interrupt) (ss : List Step) (es : List Event) (s : Node e)
      → Merge (message_actions e m s) during ss
      → steps e es (run_steps e ss s) ≡ steps e (message m ∷ (map event_of during ++ es)) s
  received-steps m during ss es s w =
      ap (steps e es) (interrupted_message e m during ss s w)
      ∙ sym (steps-append (message m ∷ map event_of during) es s)

  -- Whatever interrupts come in the middle of the passes and of the messages of an execution, its end is that of its events,
  -- one after the other and each in one go.
  pub execution_lem : {es : List Event} {s s' : Node e} → Execution e es s s' → s' ≡ steps e es s
  unfolding steps step
  execution_lem finished = refl
  execution_lem {es = (_ ∷ es)} {s = s} (interrupted x run) =
      execution_lem run ∙ ap (steps e es) (interrupt-step x s)
  execution_lem {s = s} (received {es = es} m during ss w run) =
      execution_lem run ∙ received-steps m during ss es s w
  execution_lem {s = s} (passed {es = es} i before during ss m run) =
      execution_lem run ∙ passed-steps i before during ss es s m

  -- After any execution from set-up, the actual level, the limit and the target are at most DIMMER_HIGH,
  -- whatever the messages say and wherever the interrupts come, also in the middle of a
  -- pass or of a message.
  pub Execution-InRange :
      (es : List Event) (s s' : Node e) → Execution e es (setup e s) s' → InRange e s'
  Execution-InRange es s s' run =
      subst (InRange e) (sym (execution_lem run)) (levels-InRange e es s)

module _ {e : Eeprom} (doc : IsEeprom e) where
  -- With an EEPROM that behaves as documented, after any execution from set-up, with interrupts also in the
  -- middle of passes and messages, another set-up gives the limit as it is, but DIMMER_MAX for a limit
  -- above that. The actual and the target level become DIMMER_HIGH.
  pub Execution-power_cycle :
      (es : List Event) (s s' : Node e)
      → Execution e es (setup e s) s'
      → ((setup e s').dimmer.limit ≡ capped s'.dimmer.limit)
        × ((setup e s').dimmer.actual ≡ dimmer_high)
        × ((setup e s').dimmer.target ≡ dimmer_high)
  Execution-power_cycle es s s' run =
      subst
        (λ t.
          ((setup e t).dimmer.limit ≡ capped t.dimmer.limit)
          × ((setup e t).dimmer.actual ≡ dimmer_high)
          × ((setup e t).dimmer.target ≡ dimmer_high))
        (sym (execution_lem e run)) (power_cycle_limit doc es s)
