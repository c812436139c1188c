-- ===== src/LightSwitch/Interrupts.antt =====
-- sketches/LightSwitchAC/LightSwitchAC.ino: the interrupts in the middle of passes and of messages.
use smarthouse_arduino.LightSwitch.Actions.{
  Interrupt, crossing, tick, event_of, Action, set_button, set_direction, set_limit, set_target,
  set_delay, set_last_now, save, send, set_relay1, set_relay2, poll_relay1, poll_relay2, Step,
  Merge, merged, act_next, interrupt_next, actions, message_actions, act, acts, interrupt,
  interrupts, run_steps, write_actual, later_actions,
}
use smarthouse_arduino.Base.{ℕ, ◌≡◌, refl, sym, ap, ◌∙◌, List, [], ◌∷◌, ◌++◌, map, arith}
use smarthouse_arduino.LightSwitch.Node.{
  Eeprom, Node, on_zero_cross_detect, on_timer_dim_check, dimmer_process, eeprom_save,
}
use smarthouse_arduino.LightSwitch.Parts.{
  acts-receive, loop-later_actions, Alike, later_actions-Alike,
}
use smarthouse_arduino.LightSwitch.Sketch.{
  Incoming, Inputs, receive, loop, Event, message, pass, step, steps,
}

module _ (e : Eeprom) where
  act-interrupt :
      (a : Action) (x : Interrupt) (s : Node e)
      → act e a (interrupt e x s) ≡ interrupt e x (act e a s)
  unfolding act interrupt on_zero_cross_detect on_timer_dim_check eeprom_save
  act-interrupt (set_button btn) crossing s = refl
  act-interrupt (set_direction up) crossing s = refl
  act-interrupt (set_limit n) crossing s = refl
  act-interrupt (set_target n) crossing s = refl
  act-interrupt (set_delay n) crossing s = refl
  act-interrupt (set_last_now n) crossing s = refl
  act-interrupt save crossing s = refl
  act-interrupt (send m) crossing s = refl
  act-interrupt (set_relay1 x') crossing s = refl
  act-interrupt (set_relay2 x') crossing s = refl
  act-interrupt (poll_relay1 p) crossing s = refl
  act-interrupt (poll_relay2 p) crossing s = refl
  act-interrupt (set_button btn) tick s = ground arith
  act-interrupt (set_direction up) tick s = ground arith
  act-interrupt (set_limit n) tick s = ground arith
  act-interrupt (set_target n) tick s = ground arith
  act-interrupt (set_delay n) tick s = ground arith
  act-interrupt (set_last_now n) tick s = ground arith
  act-interrupt save tick s = ground arith
  act-interrupt (send m) tick s = ground arith
  act-interrupt (set_relay1 x') tick s = ground arith
  act-interrupt (set_relay2 x') tick s = ground arith
  act-interrupt (poll_relay1 p) tick s = ground arith
  act-interrupt (poll_relay2 p) tick s = ground arith

  act-interrupts :
      (a : Action) (xs : List Interrupt) (s : Node e)
      → act e a (interrupts e xs s) ≡ interrupts e xs (act e a s)
  unfolding interrupts
  act-interrupts a [] s = refl
  act-interrupts a (x ∷ xs) s =
      act-interrupts a xs (interrupt e x s) ∙ ap (interrupts e xs) (act-interrupt a x s)

  acts-interrupt :
      (todo : List Action) (x : Interrupt) (s : Node e)
      → acts e todo (interrupt e x s) ≡ interrupt e x (acts e todo s)
  unfolding acts
  acts-interrupt [] x s = refl
  acts-interrupt (a ∷ todo) x s =
      ap (acts e todo) (act-interrupt a x s) ∙ acts-interrupt todo x (act e a s)

  -- Interrupts merged into the actions come to the same as the interrupts e after the actions.
  Merge-interrupts :
      {todo : List Action} {xs : List Interrupt} {ss : List Step} (s : Node e)
      → Merge todo xs ss
      → run_steps e ss s ≡ interrupts e xs (acts e todo s)
  unfolding run_steps interrupts acts
  Merge-interrupts s merged = refl
  Merge-interrupts s (act_next a m) = Merge-interrupts (act e a s) m
  Merge-interrupts {todo = todo} {xs = (x ∷ xs)} s (interrupt_next y m) =
      Merge-interrupts (interrupt e y s) m ∙ ap (interrupts e xs) (acts-interrupt todo y s)

  -- No interrupt changes what a pass reads.
  record IsKept (s t : Node e) : Type 0 where
    alike : Alike e s t
    last_now : t.dimmer_last_now ≡ s.dimmer_last_now
    button : t.button ≡ s.button

  interrupt-IsKept : (x : Interrupt) (s : Node e) → IsKept s (interrupt e x s)
  unfolding interrupt on_zero_cross_detect on_timer_dim_check
  interrupt-IsKept crossing s = record { alike = (refl, refl); last_now = refl; button = refl }
  interrupt-IsKept tick s = record {
    alike = (ground arith, ground arith);
    last_now = ground arith;
    button = ground arith;
  }

  interrupts-later_actions :
      (i : Inputs) (xs : List Interrupt) (s : Node e)
      → later_actions e i (interrupts e xs s) ≡ later_actions e i s
  unfolding interrupts
  interrupts-later_actions i [] s = refl
  interrupts-later_actions i (x ∷ xs) s =
      let s' = interrupt e x s in
      let k = interrupt-IsKept x s in
      interrupts-later_actions i xs s' ∙ later_actions-Alike e i s s' k.alike k.last_now k.button

  fade-same :
      (now : ℕ) (s s' : Node e)
      → s'.dimmer ≡ s.dimmer
      → s'.dimmer_last_now ≡ s.dimmer_last_now
      → ((dimmer_process e now s').dimmer ≡ (dimmer_process e now s).dimmer)
        × ((dimmer_process e now s').dimmer_last_now ≡ (dimmer_process e now s).dimmer_last_now)
  unfolding dimmer_process
  fade-same now s s' h h' = (ground (arith, h, h'), ground (arith, h, h'))

  fade-interrupt :
      (now : ℕ) (x : Interrupt) (s : Node e)
      → ((dimmer_process e now (interrupt e x s)).dimmer ≡ (dimmer_process e now s).dimmer)
        × ((dimmer_process e now (interrupt e x s)).dimmer_last_now
            ≡ (dimmer_process e now s).dimmer_last_now)
  fade-interrupt now x s =
      let k = interrupt-IsKept x s in fade-same now s (interrupt e x s) k.alike.0 k.last_now

  -- Both writes of the fade.
  abbrev pub write_fade : Node e → Node e → Node e
  write_fade f s = record (write_actual e f s) { dimmer_last_now = f.dimmer_last_now }

  pub fade_self :
      (now : ℕ) (s : Node e) → dimmer_process e now s ≡ write_fade (dimmer_process e now s) s
  unfolding dimmer_process
  fade_self now s = ground arith

  -- The fade that has read the node before interrupts e writes what it would read after them.
  fade-interrupts :
      (now : ℕ) (xs : List Interrupt) (s : Node e)
      → dimmer_process e now (interrupts e xs s)
        ≡ write_fade (dimmer_process e now s) (interrupts e xs s)
  unfolding interrupts
  fade-interrupts now [] s = fade_self now s
  fade-interrupts now (x ∷ xs) s =
      fade-interrupts now xs (interrupt e x s)
      ∙ (let (same, same') = fade-interrupt now x s in rw (same, same'))

  steps-interrupts :
      (xs : List Interrupt) (events : List Event) (s : Node e)
      → steps e (map event_of xs ++ events) s ≡ steps e events (interrupts e xs s)
  unfolding steps step interrupts interrupt
  steps-interrupts [] events s = refl
  steps-interrupts (crossing ∷ xs) events s = steps-interrupts xs events (on_zero_cross_detect e s)
  steps-interrupts (tick ∷ xs) events s = steps-interrupts xs events (on_timer_dim_check e s)

  interrupts-events :
      (xs : List Interrupt) (s : Node e) → interrupts e xs s ≡ steps e (map event_of xs) s
  unfolding steps step interrupts interrupt
  interrupts-events [] s = refl
  interrupts-events (crossing ∷ xs) s = interrupts-events xs (on_zero_cross_detect e s)
  interrupts-events (tick ∷ xs) s = interrupts-events xs (on_timer_dim_check e s)

  -- Interrupts between the reading of the fade and its write of the level, and at any point between that
  -- and the actions of the pass after it, come to the same as the first before and the others after a
  -- whole pass.
  pub interrupted_pass :
      (i : Inputs) (before during : List Interrupt) (ss : List Step) (s : Node e)
      → Merge (actions e i s) during ss
      → run_steps e ss (write_actual e (dimmer_process e i.now s) (interrupts e before s))
        ≡ steps e (map event_of before ++ (pass i ∷ map event_of during)) s
  unfolding steps step actions acts act
  interrupted_pass i before during ss s m =
      let s' = interrupts e before s in
      let f = dimmer_process e i.now s in
      let f' = dimmer_process e i.now s' in
      Merge-interrupts (write_actual e f s') m
      ∙ ap (interrupts e during) (
          ap (acts e (later_actions e i s)) (sym (fade-interrupts i.now before s))
          ∙ ap (λ todo. acts e todo f') (sym (interrupts-later_actions i before s))
          ∙ sym (loop-later_actions e i s'))
      ∙ interrupts-events during (loop e i s')
      ∙ sym (steps-interrupts before (pass i ∷ map event_of during) s)

  -- Interrupts between the actions of a message come to the same as after it.
  pub interrupted_message :
      (m : Incoming) (during : List Interrupt) (ss : List Step) (s : Node e)
      → Merge (message_actions e m s) during ss
      → run_steps e ss s ≡ steps e (message m ∷ map event_of during) s
  unfolding steps step
  interrupted_message m during ss s w =
      Merge-interrupts s w
      ∙ ap (interrupts e during) (acts-receive e m s)
      ∙ interrupts-events during (receive e m s)
