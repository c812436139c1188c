-- ===== src/Tests/LightSwitchTests.antt =====
-- The LightSwitchAC sketch at concrete states.
use smarthouse_arduino.Base.{ℕ, ◌%◌, ◌≡◌, ◌≤◌, ◌↔◌, refl, some, true, false, [], ◌∷◌, arith}
use smarthouse_arduino.LightSwitch.Firing.{ticks, ticks-on_zero_cross_detect}
use smarthouse_arduino.LightSwitch.Levels.{receive_level, long_release_reports}
use smarthouse_arduino.LightSwitch.Node.{
  Node, on_zero_cross_detect, light_level, light_status, dimmer_level,
}
use smarthouse_arduino.LightSwitch.Range.{InRange}
use smarthouse_arduino.LightSwitch.Relay.{Relay, RelayCallback, on_button_short_release}
use smarthouse_arduino.LightSwitch.Sketch.{
  Incoming, power_on, receive, v_light_level, ms_lamp_id, long_release_handler,
}
use smarthouse_arduino.LightSwitch.Toggling.{relay_run, relay_press}
use smarthouse_arduino.NewButton.{NewButton, idle, no_callbacks}
use smarthouse_arduino.NewButton.Hold.{IsIdle}
use smarthouse_arduino.NewButton.Press.{done, poll}
use smarthouse_arduino.Tests.LampSamples.{byte_eeprom, byte_eeprom-IsEeprom, fresh, short_press}

abbrev lit_node : Node byte_eeprom
lit_node = record fresh { dimmer = record fresh.dimmer { actual = 110 } }

ticks-on_zero_cross_detect_example :
    (ticks byte_eeprom 111 (on_zero_cross_detect byte_eeprom lit_node)).output_ac ≡ true
ticks-on_zero_cross_detect_example = ticks-on_zero_cross_detect byte_eeprom 111 lit_node

-- Released two seconds into a long press right after set-up, the lamp saves the level 120 and reports
-- the light level 236.
reports_out_of_range :
    (long_release_handler byte_eeprom
      (record fresh { dimmer = record fresh.dimmer { actual = 120 } })).sent
    ≡ light_status 1 ∷ (light_level 236 ∷ [])
unfolding long_release_handler dimmer_level power_on
reports_out_of_range = refl

abbrev toggling_button : NewButton RelayCallback
toggling_button = record {
  pin = 7;
  short_press_time = 40;
  long_press_time = 2000;
  prev_status = false;
  pressed_time = 0;
  prev_press_status = idle;
  press_status = idle;
  callbacks = record no_callbacks { on_short_release = some on_button_short_release };
}

-- A press of a tenth of a second.
abbrev relay : Relay
relay = record { status = false; button = toggling_button; output_pin = 4; output = false }

relay_press_example :
    ((relay_run relay short_press).status ≡ true)
    × ((relay_run relay short_press).output ≡ (relay_run relay short_press).status)
    × IsIdle (relay_run relay short_press).button
relay_press_example =
    relay_press relay 5000 5000 5100 5200 5200
      (record { status = true; now = 0; later = 5100 } ∷ []) refl refl
      (record { released = refl; no_time = refl; idle_status = refl; idle_before = refl })
      (omega arith) (omega arith) (omega arith) (omega arith)
      (poll 0 5100 (omega arith) (omega arith) done)

abbrev level_message : Incoming
level_message = record { sensor = ms_lamp_id; type = v_light_level; bool = false; int = 250 }

receive_level_example :
    ((receive byte_eeprom level_message fresh).dimmer.limit ≡ 0)
    × ((receive byte_eeprom level_message fresh).dimmer.target ≡ 0)
    × ((receive byte_eeprom level_message fresh).rom % 256 ≡ 0)
    × ((receive byte_eeprom level_message fresh).sent ≡ light_status 1 ∷ (light_level 100 ∷ []))
unfolding power_on
receive_level_example = receive_level byte_eeprom-IsEeprom level_message fresh refl refl

-- At the level of set-up.
abbrev ready : Node byte_eeprom
ready = record fresh { dimmer = record { actual = 120; limit = 100; target = 120; delay = 0 } }

ready-InRange : InRange byte_eeprom ready
ready-InRange = record { actual_le = omega arith; limit_le = omega arith; target_le = omega arith }

long_release_reports_example :
    ((long_release_handler byte_eeprom ready).dimmer.limit ≡ 120)
    × ((level : ℕ) × ((long_release_handler byte_eeprom ready).sent
          ≡ light_status 1 ∷ (light_level level ∷ []))
        × ((level ≤ 100) ↔ (120 ≤ 100)))
unfolding power_on
long_release_reports_example = long_release_reports ready ready-InRange
