-- ===== src/Tests/InterruptTests.antt =====
-- Executions of the LightSwitchAC sketch with interrupts in the middle of passes and messages.
use smarthouse_arduino.Base.{◌≡◌, refl, inl, true, false, List, [], ◌∷◌, map, arith}
use smarthouse_arduino.LightSwitch.Actions.{
  crossing, tick, set_button, set_direction, set_limit, set_target, set_delay, set_last_now, save,
  send, poll_relay1, poll_relay2, Step, action, interruption, merged, act_next, interrupt_next,
  interrupt, interrupts, run_steps, write_actual, actions, later_actions, callbacks, call_actions,
  message_actions, act, acts,
}
use smarthouse_arduino.LightSwitch.Executions.{
  Execution, finished, received, passed, execution_lem, Execution-InRange, Execution-power_cycle,
}
use smarthouse_arduino.LightSwitch.Node.{
  Node, dimmer_max, dimmer_high, light_level, light_dimmer_convert, on_timer_dim_check,
  fade_delay_fast_ms, light_status, change_button_direction, eeprom_restore, eeprom_save, reset,
  dimmer_process, on_zero_cross_detect,
}
use smarthouse_arduino.LightSwitch.Range.{InRange}
use smarthouse_arduino.LightSwitch.Sketch.{
  Incoming, Event, power_on, setup, ms_lamp_id, v_light, v_light_level, loop, call_all, Inputs,
  steps, pass, message, zero_crossing, timer_tick,
}
use smarthouse_arduino.LightSwitch.Tapping.{loops}
use smarthouse_arduino.LightSwitch.Passes.{Tapped}
use smarthouse_arduino.LightSwitch.Undisturbed.{uninterrupted_loops, interrupted_short_press}
use smarthouse_arduino.NewButton.{process, new, register}
use smarthouse_arduino.NewButton.Hold.{IsIdle}
use smarthouse_arduino.NewButton.Press.{done, poll}
use smarthouse_arduino.Tests.LampSamples.{
  lamp, pass_of, byte_eeprom, byte_eeprom-IsEeprom, fresh, short_press,
}

-- The passes of the short press before the release.
abbrev pressed_lamp : Node byte_eeprom
pressed_lamp =
    loops byte_eeprom
      (map pass_of (
        record { status = true; now = 5000; later = 5000 }
        ∷ (record { status = true; now = 0; later = 5100 } ∷ [])))
      lamp

abbrev release_pass : Inputs
release_pass = pass_of (record { status = false; now = 5200; later = 5200 })

-- A tick between the two writes of the fade, a zero crossing after the poll of the button, a tick between the target and the report of the callback
-- and a tick at the end.
abbrev release_steps : List Step
release_steps =
    interruption tick
    ∷ (action (set_last_now (dimmer_process byte_eeprom 5200 pressed_lamp).dimmer_last_now)
        ∷ (action (set_button (process false 5200 5200 pressed_lamp.button).0)
            ∷ (interruption crossing
                ∷ (action (set_direction false)
                    ∷ (action (set_target dimmer_max)
                        ∷ (interruption tick
                            ∷ (action (send (light_status 1))
                                ∷ (action (set_delay fade_delay_fast_ms)
                                    ∷ (action (poll_relay1 release_pass.relay1_poll)
                                        ∷ (action (poll_relay2 release_pass.relay2_poll)
                                            ∷ (interruption tick ∷ [])))))))))))

-- The pass of the release, with a tick in the middle of its fade as well.
abbrev released_lamp : Node byte_eeprom
released_lamp = run_steps byte_eeprom release_steps (
    write_actual byte_eeprom (dimmer_process byte_eeprom 5200 pressed_lamp)
      (interrupts byte_eeprom (tick ∷ []) pressed_lamp))

release-Execution :
    Execution byte_eeprom
      (timer_tick
        ∷ (pass release_pass ∷ (timer_tick ∷ (zero_crossing ∷ (timer_tick ∷ (timer_tick ∷ []))))))
      pressed_lamp
      released_lamp
unfolding actions later_actions callbacks call_actions change_button_direction loops loop
    dimmer_process process power_on setup reset eeprom_restore new register call_all
release-Execution =
    passed release_pass (tick ∷ []) (tick ∷ (crossing ∷ (tick ∷ (tick ∷ [])))) release_steps
      (interrupt_next tick (
        act_next (set_last_now (dimmer_process byte_eeprom 5200 pressed_lamp).dimmer_last_now) (
          act_next (set_button (process false 5200 5200 pressed_lamp.button).0) (
            interrupt_next crossing (
              act_next (set_direction false) (
                act_next (set_target dimmer_max) (
                  interrupt_next tick (
                    act_next (send (light_status 1)) (
                      act_next (set_delay fade_delay_fast_ms) (
                        act_next (poll_relay1 release_pass.relay1_poll) (
                          act_next (poll_relay2 release_pass.relay2_poll)
                            (interrupt_next tick merged))))))))))))
      finished

execution_lem_example :
    released_lamp
    ≡ steps byte_eeprom
        (timer_tick
          ∷ (pass release_pass ∷ (timer_tick ∷ (zero_crossing ∷ (timer_tick ∷ (timer_tick ∷ []))))))
        pressed_lamp
execution_lem_example = execution_lem byte_eeprom release-Execution

-- The whole press of the button, with the interrupts in its last pass.
abbrev press_events : List Event
press_events =
    pass (pass_of (record { status = true; now = 5000; later = 5000 }))
    ∷ (pass (pass_of (record { status = true; now = 0; later = 5100 }))
        ∷ (timer_tick
            ∷ (pass release_pass
                ∷ (timer_tick ∷ (zero_crossing ∷ (timer_tick ∷ (timer_tick ∷ [])))))))

press-Execution : Execution byte_eeprom press_events lamp released_lamp
press-Execution =
    uninterrupted_loops byte_eeprom
      (map pass_of (
        record { status = true; now = 5000; later = 5000 }
        ∷ (record { status = true; now = 0; later = 5100 } ∷ [])))
      (timer_tick
        ∷ (pass release_pass ∷ (timer_tick ∷ (zero_crossing ∷ (timer_tick ∷ (timer_tick ∷ []))))))
      lamp released_lamp release-Execution

interrupted_short_press_example :
    Tapped byte_eeprom lamp released_lamp × IsIdle released_lamp.button
unfolding power_on setup reset eeprom_restore new register
interrupted_short_press_example =
    interrupted_short_press byte_eeprom 5000 5000 5100 5200 5200
      (record { status = true; now = 0; later = 5100 } ∷ []) (map pass_of short_press)
      press-Execution refl refl (record { still = refl; places = inl refl; range = omega arith })
      (record { released = refl; no_time = refl; idle_status = refl; idle_before = refl })
      (omega arith) (omega arith) (omega arith) (omega arith)
      (poll 0 5100 (omega arith) (omega arith) done) refl refl

abbrev pub on_message : Incoming
on_message = record { sensor = ms_lamp_id; type = v_light; bool = true; int = 1 }

-- A zero crossing between the new target and its report.
abbrev pub heard_steps : List Step
heard_steps =
    action (set_target dimmer_max)
    ∷ (interruption crossing
        ∷ (action (send (light_status 1)) ∷ (action (set_delay fade_delay_fast_ms) ∷ [])))

abbrev pub heard : Node byte_eeprom
heard = run_steps byte_eeprom heard_steps lamp

abbrev idle_pass : Inputs
idle_pass = pass_of (record { status = false; now = 20; later = 20 })

-- A pass without calls after the message, with a tick after the poll of the button.
abbrev idle_steps : List Step
idle_steps =
    action (set_last_now (dimmer_process byte_eeprom 20 heard).dimmer_last_now)
    ∷ (action (set_button (process false 20 20 heard.button).0)
        ∷ (interruption tick
            ∷ (action (poll_relay1 idle_pass.relay1_poll)
                ∷ (action (poll_relay2 idle_pass.relay2_poll) ∷ []))))

abbrev later_lamp : Node byte_eeprom
later_lamp = run_steps byte_eeprom idle_steps (
    write_actual byte_eeprom (dimmer_process byte_eeprom 20 heard)
      (interrupts byte_eeprom [] heard))

abbrev message_events : List Event
message_events = message on_message ∷ (zero_crossing ∷ (pass idle_pass ∷ (timer_tick ∷ [])))

message-Execution : Execution byte_eeprom message_events lamp later_lamp
unfolding message_actions actions later_actions callbacks call_actions act acts run_steps interrupt
    eeprom_save on_zero_cross_detect dimmer_process process power_on setup reset eeprom_restore new
    register
message-Execution =
    received on_message (crossing ∷ []) heard_steps
      (act_next (set_target dimmer_max) (
        interrupt_next crossing
          (act_next (send (light_status 1)) (act_next (set_delay fade_delay_fast_ms) merged))))
      (passed idle_pass [] (tick ∷ []) idle_steps
        (act_next (set_last_now (dimmer_process byte_eeprom 20 heard).dimmer_last_now) (
          act_next (set_button (process false 20 20 heard.button).0) (
            interrupt_next tick (
              act_next (poll_relay1 idle_pass.relay1_poll)
                (act_next (poll_relay2 idle_pass.relay2_poll) merged)))))
        finished)

Execution-InRange_example : InRange byte_eeprom later_lamp
Execution-InRange_example =
    Execution-InRange byte_eeprom message_events fresh later_lamp message-Execution

abbrev level_message : Incoming
level_message = record { sensor = ms_lamp_id; type = v_light_level; bool = false; int = 70 }

-- A zero crossing before the new limit is saved, and a tick between the two reports.
abbrev level_steps : List Step
level_steps =
    action (set_limit 30)
    ∷ (action (set_target 30)
        ∷ (interruption crossing
            ∷ (action save
                ∷ (action (send (light_level 70))
                    ∷ (interruption tick ∷ (action (send (light_status 1)) ∷ []))))))

level-Execution :
    Execution byte_eeprom
      (message level_message ∷ (zero_crossing ∷ (timer_tick ∷ [])))
      lamp
      (run_steps byte_eeprom level_steps lamp)
unfolding message_actions light_dimmer_convert
level-Execution =
    received level_message (crossing ∷ (tick ∷ [])) level_steps
      (act_next (set_limit 30) (
        act_next (set_target 30) (
          interrupt_next crossing (
            act_next save (
              act_next (send (light_level 70))
                (interrupt_next tick (act_next (send (light_status 1)) merged)))))))
      finished

Execution-power_cycle_example :
    ((setup byte_eeprom (run_steps byte_eeprom level_steps lamp)).dimmer.limit ≡ 30)
    × ((setup byte_eeprom (run_steps byte_eeprom level_steps lamp)).dimmer.actual ≡ dimmer_high)
    × ((setup byte_eeprom (run_steps byte_eeprom level_steps lamp)).dimmer.target ≡ dimmer_high)
unfolding run_steps act interrupt on_zero_cross_detect on_timer_dim_check eeprom_save setup
    eeprom_restore
Execution-power_cycle_example =
    Execution-power_cycle byte_eeprom-IsEeprom
      (message level_message ∷ (zero_crossing ∷ (timer_tick ∷ []))) fresh
      (run_steps byte_eeprom level_steps lamp) level-Execution
