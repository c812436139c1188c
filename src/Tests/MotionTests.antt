-- ===== src/Tests/MotionTests.antt =====
-- The MotionLightWithRelay sketch at concrete readings.
use smarthouse_arduino.Base.{ℕ, ◌%◌, ◌≡◌, ◌*◌, ◌/◌, refl, Bool, true, false, List, [], ◌∷◌, arith}
use smarthouse_arduino.Motion.{
  Platform, IsPlatform, Inputs, Node, setup, reset, Event, message, pass, timer, steps, pin_level,
  child_id_relay, v_light, step, receive, on_send_timer,
}
use smarthouse_arduino.Motion.Reports.{loops, loops-changes, motions, lights}
use smarthouse_arduino.Motion.Shared.{
  of_motion, of_light, set_motion, set_light, load, transmit, set_button, Step, action, tick, over,
  act_next, tick_next, Shared, actions, run_steps,
}
use smarthouse_arduino.Motion.View.{newest_motion, newest_light}
use smarthouse_arduino.Motion.Preempted.{Reached, started, passed, Reached_view}
use smarthouse_arduino.Motion.Restart.{power_cycle_relay}

-- One stored byte; the division by 10.23 in whole numbers.
abbrev memory : Platform
memory = record {
  Rom = ℕ;
  load_state = λ r. r % 256;
  save_state = λ x r. x;
  divided = λ n. (n * 100) / 1023;
}

memory-IsPlatform : IsPlatform memory
memory-IsPlatform = record { load-save = λ x r h. omega arith }

abbrev first : Node memory
first = record {
  relay_state = 0;
  button_state = false;
  movement_detected = false;
  light_level = 0;
  relay_pin = 0;
  rom = 255;
  sent = [];
}

abbrev seen : Bool → ℕ → Inputs
seen x n = record { movement = x; analog = n; button = true }

abbrev readings : List Inputs
readings = seen true 1023 ∷ (seen true 0 ∷ (seen false 0 ∷ []))

loops-changes_example :
    (motions (loops memory readings first).sent ≡ false ∷ (true ∷ []))
    × (lights (loops memory readings first).sent ≡ 100 ∷ [])
loops-changes_example = loops-changes memory readings first

abbrev events : List Event
events =
    pass (seen true 511)
    ∷ (message (record { is_ack = false; sensor = child_id_relay; type = v_light; bool = false })
        ∷ (timer ∷ []))

power_cycle_relay_example :
    ((setup memory (steps memory events (setup memory first))).relay_state
      ≡ (steps memory events (setup memory first)).relay_state)
    × ((setup memory (steps memory events (setup memory first))).relay_pin
        ≡ (steps memory events (setup memory first)).relay_pin)
    × ((steps memory events (setup memory first)).relay_pin
        ≡ pin_level (steps memory events (setup memory first)).relay_state)
power_cycle_relay_example = power_cycle_relay memory-IsPlatform events first

relay_switched : (steps memory events (setup memory first)).relay_state ≡ 0
unfolding steps step receive on_send_timer
relay_switched = refl

abbrev shared : Shared memory
shared = record { node = first; msg_mot = false; msg_light = 0 }

-- A pass that finds motion and level 50; the timer's interrupt comes between the two parts of
-- `movement_detected = true; message_send(msgMot.set(movement_detected))` and before the light report.
abbrev preempted : List Step
preempted =
    action (set_motion true)
    ∷ (tick
        ∷ (action (load of_motion)
            ∷ (action (transmit of_motion)
                ∷ (action (set_light 50)
                    ∷ (action (load of_light)
                        ∷ (tick
                            ∷ (action (transmit of_light) ∷ (action (set_button true) ∷ []))))))))

abbrev preempted_pass :
    Reached true 50 (run_steps memory preempted (record shared { node = setup memory first }))
unfolding actions setup reset
preempted_pass =
    passed (seen true 511)
      (act_next (set_motion true) (
        tick_next (
          act_next (load of_motion) (
            act_next (transmit of_motion) (
              act_next (set_light 50) (
                act_next (load of_light)
                  (tick_next (act_next (transmit of_light) (act_next (set_button true) over)))))))))
      (started shared refl)

Reached_view_example :
    (newest_motion
        (run_steps memory preempted (record shared { node = setup memory first })).node.sent
      ≡ true)
    × (newest_light
          (run_steps memory preempted (record shared { node = setup memory first })).node.sent
        ≡ 50)
Reached_view_example = Reached_view preempted_pass
