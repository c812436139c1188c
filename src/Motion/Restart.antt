-- ===== src/Motion/Restart.antt =====
-- The relay of the MotionLightWithRelay sketch across a power cycle.
use smarthouse_arduino.Base.{◌≡◌, refl, List, [], ◌∷◌, arith}
use smarthouse_arduino.Motion.{
  Platform, IsPlatform, Inputs, Node, pin_level, setup, receive, loop, on_send_timer,
  movement_sensor_process, light_level_process, button_process, Event, message, pass, timer, step,
  steps,
}

module _ {p : Platform} (doc : IsPlatform p) where
  -- The stored state is the relay's, and the pin shows it.
  record IsKept (s : Node p) : Type 0 where
    stored : p.load_state s.rom ≡ s.relay_state
    shown : s.relay_pin ≡ pin_level s.relay_state

  setup-IsKept : (s : Node p) → IsKept (setup p s)
  unfolding setup
  setup-IsKept s = record { stored = refl; shown = refl }

  -- A pass of the main loop touches neither the relay nor its stored state.
  loop_lem :
      (i : Inputs) (s : Node p)
      → ((loop p i s).rom ≡ s.rom)
        × ((loop p i s).relay_state ≡ s.relay_state)
        × ((loop p i s).relay_pin ≡ s.relay_pin)
  unfolding loop movement_sensor_process light_level_process button_process
  loop_lem i s = ground arith

  step-IsKept : (x : Event) (s : Node p) → IsKept s → IsKept (step p x s)
  unfolding step receive on_send_timer
  step-IsKept (message m) s k =
      ground (arith, k.stored, k.shown, doc.load-save 0 s.rom, doc.load-save 1 s.rom)
  step-IsKept (pass i) s k =
      let (r, state, pin) = loop_lem i s in
      record { stored = rw (r, state) k.stored; shown = rw (state, pin) k.shown }
  step-IsKept timer s k = record { stored = k.stored; shown = k.shown }

  steps-IsKept : (xs : List Event) (s : Node p) → IsKept s → IsKept (steps p xs s)
  unfolding steps
  steps-IsKept [] s k = k
  steps-IsKept (x ∷ xs) s k = steps-IsKept xs (step p x s) (step-IsKept x s k)

  -- With saved states that behave as documented, after any history from set-up, another set-up gives
  -- the relay its state and its pin the level that they had, which is the level of that state.
  pub power_cycle_relay :
      (xs : List Event) (s : Node p)
      → let s' = steps p xs (setup p s) in
        ((setup p s').relay_state ≡ s'.relay_state)
        × ((setup p s').relay_pin ≡ s'.relay_pin)
        × (s'.relay_pin ≡ pin_level s'.relay_state)
  unfolding setup
  power_cycle_relay xs s =
      let k = steps-IsKept xs (setup p s) (setup-IsKept s) in
      (k.stored, rw (k.stored, k.shown) refl, k.shown)
