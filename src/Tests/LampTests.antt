-- ===== src/Tests/LampTests.antt =====
-- Whole presses and messages of the LightSwitchAC lamp at concrete times.
use smarthouse_arduino.Base.{
  zero, ◌+◌, ◌*◌, ◌<◌, ◌^◌, length, suc, ℕ, ◌≡◌, ◌≤◌, refl, true, false, List, [], ◌∷◌, ◌++◌, map,
  arith,
}
use smarthouse_arduino.LightSwitch.Fading.{Due}
use smarthouse_arduino.LightSwitch.Actions.{
  crossing, tick, set_target, set_delay, send, merged, act_next, interrupt_next, interrupt,
  message_actions,
}
use smarthouse_arduino.LightSwitch.Executions.{Execution, finished, interrupted, received}
use smarthouse_arduino.LightSwitch.Undisturbed.{
  uninterrupted_loops, HasSettled, interrupted_long_press, interrupted_switch,
}
use smarthouse_arduino.Tests.InterruptTests.{on_message, heard_steps, heard}
use smarthouse_arduino.LightSwitch.Node.{
  Node, light_status, dimmer_level, eeprom_restore, reset, fade_delay_fast_ms, dimmer_max,
  dimmer_process, eeprom_save, change_button_direction,
}
use smarthouse_arduino.LightSwitch.Range.{setup-InRange}
use smarthouse_arduino.LightSwitch.Sketch.{
  power_on, setup, message, pass, zero_crossing, timer_tick, long_release_handler,
  long_press_handler, loop, call, call_all, Inputs,
}
use smarthouse_arduino.LightSwitch.Tapping.{lamp_poll, loops}
use smarthouse_arduino.LightSwitch.Switching.{pass_time}
use smarthouse_arduino.NewButton.{process, new, register}
use smarthouse_arduino.NewButton.Press.{Poll, run, done, poll, released}
use smarthouse_arduino.Tests.LampSamples.{lamp, pass_of, byte_eeprom, byte_eeprom-IsEeprom, fresh}

-- A press of 2.2 seconds.
abbrev hold_polls : List Poll
hold_polls =
    record { status = true; now = 0; later = 5100 }
    ∷ (record { status = true; now = 0; later = 7200 } ∷ [])

abbrev hold_passes : List Inputs
hold_passes =
    map pass_of
      (record { status = true; now = 5000; later = 5000 } ∷ (hold_polls ++ released 7300 7300 ∷ []))

abbrev held_lamp : Node byte_eeprom
held_lamp = loops byte_eeprom hold_passes lamp

-- The level on release is one step below DIMMER_HIGH.
held_level : held_lamp.dimmer.actual ≡ 119
unfolding power_on setup reset eeprom_restore new register loops loop dimmer_process process
    call_all call long_press_handler long_release_handler dimmer_level eeprom_save
    change_button_direction
held_level = refl

-- Passes every 20 milliseconds, with no button pressed.
abbrev quiet_passes : ℕ → ℕ → List Inputs
quiet_passes zero t = []
quiet_passes (suc n) t =
    pass_of (record { status = false; now = t; later = t }) ∷ quiet_passes n (t + 20)

quiet_passes-Due :
    (n t last : ℕ)
    → last + 20 ≤ t
    → t + 20 * n < 2 ^ 32
    → Due fade_delay_fast_ms last (map pass_time (quiet_passes n t))
quiet_passes-Due zero t last h l = tt
quiet_passes-Due (suc n) t last h l =
    (omega (arith, h, l), quiet_passes-Due n (t + 20) t (omega arith) (omega (arith, l)))

length-quiet_passes : (n t : ℕ) → length (quiet_passes n t) ≡ n
length-quiet_passes zero t = refl
length-quiet_passes (suc n) t = omega (arith, length-quiet_passes n (t + 20))

-- A button at rest, polled at level false.
calls_none : (n t : ℕ) → (run lamp.button (map lamp_poll (quiet_passes n t))).1 ≡ []
unfolding run process power_on setup eeprom_restore reset new register
calls_none zero t = refl
calls_none (suc n) t = calls_none n (t + 20)

-- A zero crossing before the press and a tick after it.
hold-Execution :
    Execution byte_eeprom (zero_crossing ∷ (map pass hold_passes ++ timer_tick ∷ [])) lamp (
      interrupt byte_eeprom tick
        (loops byte_eeprom hold_passes (interrupt byte_eeprom crossing lamp)))
hold-Execution = interrupted crossing (
    uninterrupted_loops byte_eeprom hold_passes (timer_tick ∷ [])
      (interrupt byte_eeprom crossing lamp) _ (interrupted tick finished))

interrupted_long_press_example : HasSettled byte_eeprom (
    interrupt byte_eeprom tick
      (loops byte_eeprom hold_passes (interrupt byte_eeprom crossing lamp)))
unfolding power_on setup reset eeprom_restore new register
interrupted_long_press_example =
    interrupted_long_press byte_eeprom-IsEeprom 5000 5000 7200 7300 7300 hold_polls hold_passes
      hold-Execution refl refl (setup-InRange byte_eeprom fresh)
      (record { released = refl; no_time = refl; idle_status = refl; idle_before = refl })
      (omega arith) (omega arith) (omega arith) (omega arith)
      (poll 0 5100 (omega arith) (omega arith) (poll 0 7200 (omega arith) (omega arith) done)) refl
      refl

-- A zero crossing in the middle of the message, and a tick after the passes.
switch-Execution :
    Execution byte_eeprom
      (message on_message ∷ (zero_crossing ∷ (map pass (quiet_passes 120 20) ++ timer_tick ∷ [])))
      lamp
      (interrupt byte_eeprom tick (loops byte_eeprom (quiet_passes 120 20) heard))
unfolding message_actions power_on setup reset eeprom_restore new register
switch-Execution =
    received on_message (crossing ∷ []) heard_steps
      (act_next (set_target dimmer_max) (
        interrupt_next crossing
          (act_next (send (light_status 1)) (act_next (set_delay fade_delay_fast_ms) merged))))
      (uninterrupted_loops byte_eeprom (quiet_passes 120 20) (timer_tick ∷ []) heard _
        (interrupted tick finished))

interrupted_switch_example :
    ((interrupt byte_eeprom tick (loops byte_eeprom (quiet_passes 120 20) heard)).dimmer.actual
      ≡ lamp.dimmer.limit)
    × ((interrupt byte_eeprom tick (loops byte_eeprom (quiet_passes 120 20) heard)).sent
        ≡ light_status 1 ∷ lamp.sent)
unfolding power_on setup reset eeprom_restore
interrupted_switch_example =
    interrupted_switch byte_eeprom on_message (quiet_passes 120 20) switch-Execution refl refl refl
      (setup-InRange byte_eeprom fresh) (calls_none 120 20)
      (quiet_passes-Due 120 20 0 (omega arith) (omega arith))
      (omega (arith, length-quiet_passes 120 20))
