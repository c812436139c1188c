-- ===== src/LightSwitch/Range.antt =====
-- The levels of the LightSwitchAC sketch, after any history of messages, presses and interrupts.
use smarthouse_arduino.Base.{ℕ, ◌≤◌, ◌≡◌, refl, List, [], ◌∷◌, arith}
use smarthouse_arduino.LightSwitch.Node.{
  dimmer_high, Eeprom, LampCallback, on_btn_long_press, on_btn_short_release, on_btn_long_release,
  Node, on_zero_cross_detect, on_timer_dim_check, dimmer_process, dimmer_switch, dimmer_level,
  light_dimmer_convert, eeprom_restore,
}
use smarthouse_arduino.LightSwitch.Sketch.{
  Incoming, Inputs, Event, message, pass, zero_crossing, timer_tick, call, call_all, setup, receive,
  loop, step, steps,
}
use smarthouse_arduino.NewButton.{process}

module _ (e : Eeprom) where
  -- No level is above DIMMER_HIGH.
  pub record InRange (s : Node e) : Type 0 where
    pub actual_le : s.dimmer.actual ≤ dimmer_high
    pub limit_le : s.dimmer.limit ≤ dimmer_high
    pub target_le : s.dimmer.target ≤ dimmer_high

  pub setup-InRange : (s : Node e) → InRange (setup e s)
  unfolding setup eeprom_restore
  setup-InRange s = ground arith

  pub dimmer_process-InRange : (now : ℕ) (s : Node e) → InRange s → InRange (dimmer_process e now s)
  unfolding dimmer_process
  dimmer_process-InRange now s i = ground (arith, i.actual_le, i.limit_le, i.target_le)

  pub call-InRange : (f : LampCallback) (s : Node e) → InRange s → InRange (call e f s)
  unfolding call dimmer_switch dimmer_level
  call-InRange on_btn_long_press s i = ground (arith, i.actual_le, i.limit_le, i.target_le)
  call-InRange on_btn_short_release s i = ground (arith, i.actual_le, i.limit_le, i.target_le)
  call-InRange on_btn_long_release s i = ground (arith, i.actual_le, i.limit_le, i.target_le)

  call_all-InRange : (fs : List LampCallback) (s : Node e) → InRange s → InRange (call_all e fs s)
  unfolding call_all
  call_all-InRange [] s i = i
  call_all-InRange (f ∷ fs) s i = call_all-InRange fs (call e f s) (call-InRange f s i)

  -- The dimmer alone matters.
  pub dimmer-InRange : (s s' : Node e) → s'.dimmer ≡ s.dimmer → InRange s → InRange s'
  dimmer-InRange s s' h i = ground (arith, h, i.actual_le, i.limit_le, i.target_le)

  loop-InRange : (x : Inputs) (s : Node e) → InRange s → InRange (loop e x s)
  unfolding loop
  loop-InRange x s i =
      let faded = dimmer_process e x.now s in
      let (button', calls) = process x.lamp.level x.lamp.now x.lamp.later faded.button in
      let polled : Node e = record faded { button = button' } in
      let j = dimmer-InRange faded polled refl (dimmer_process-InRange x.now s i) in
      dimmer-InRange (call_all e calls polled) (loop e x s) refl (call_all-InRange calls polled j)

  pub receive-InRange : (m : Incoming) (s : Node e) → InRange s → InRange (receive e m s)
  unfolding receive dimmer_switch dimmer_level light_dimmer_convert
  receive-InRange m s i = ground (arith, i.actual_le, i.limit_le, i.target_le)

  pub step-InRange : (x : Event) (s : Node e) → InRange s → InRange (step e x s)
  unfolding step on_zero_cross_detect on_timer_dim_check
  step-InRange (message m) s i = receive-InRange m s i
  step-InRange (pass x) s i = loop-InRange x s i
  step-InRange zero_crossing s i = dimmer-InRange s _ refl i
  step-InRange timer_tick s i = dimmer-InRange s (on_timer_dim_check e s) (ground arith) i

  steps-InRange : (xs : List Event) (s : Node e) → InRange s → InRange (steps e xs s)
  unfolding steps
  steps-InRange [] s i = i
  steps-InRange (x ∷ xs) s i = steps-InRange xs (step e x s) (step-InRange x s i)

  -- After any history from set-up, the actual level, the limit and the target are at most DIMMER_HIGH,
  -- whatever the messages say and wherever the interrupts come between passes and messages.
  pub levels-InRange : (xs : List Event) (s : Node e) → InRange (steps e xs (setup e s))
  levels-InRange xs s = steps-InRange xs (setup e s) (setup-InRange s)
