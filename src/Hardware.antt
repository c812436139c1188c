-- ===== src/Hardware.antt =====
-- How the three sketches set up the board: the calls of the Arduino core and of the timer and button
-- libraries, from the start to the end of `setup`.
use smarthouse_arduino.Base.{
  ℕ, ◌*◌, ◌%◌, ◌^◌, ◌≡◌, refl, Bool, false, List, [], ◌∷◌, Option, none, some, ◌==◌, if◌then◌else◌,
}
use smarthouse_arduino.Kitchen.Sketch.{pin_in_button as kitchen_pin_in_button}
use smarthouse_arduino.LightSwitch.Node.{Eeprom, reset, eeprom_restore}
use smarthouse_arduino.LightSwitch.Relay.{new_relay, set_status}
use smarthouse_arduino.LightSwitch.Sketch.{
  pin_out_relay1, pin_in_button, pin_out_relay2, power_on, setup,
}
use smarthouse_arduino.Motion
use smarthouse_arduino.Motion.{pin_level, relay_off}

pub data PinMode : Type 0 where
  input output : PinMode

-- `timer1_initialize` takes microseconds and `bounce_interval` and `ms_timer2_set` milliseconds; the
-- handlers are those of the sketch.
pub data HardwareCall : Type 0 where
  serial_begin : ℕ → HardwareCall
  pin_mode : ℕ → PinMode → HardwareCall
  digital_write : ℕ → ℕ → HardwareCall
  attach_rising timer1_initialize timer1_attach_interrupt : ℕ → HardwareCall
  bounce_attach bounce_interval ms_timer2_set : ℕ → HardwareCall
  ms_timer2_start : HardwareCall

-- `NewButton::setup`.
abbrev pub button_setup : ℕ → HardwareCall
button_setup pin = pin_mode pin input

abbrev pub logging_setup : ℕ → HardwareCall
logging_setup speed = serial_begin speed

abbrev pub serial_speed : ℕ
serial_speed = 115200

abbrev pub kitchen_serial_speed : ℕ
kitchen_serial_speed = 115200

abbrev pub kitchen_setup : List HardwareCall
kitchen_setup = logging_setup kitchen_serial_speed ∷ (button_setup kitchen_pin_in_button ∷ [])

abbrev pub pin_in_zero_cross : ℕ
pin_in_zero_cross = 2

abbrev pub pin_out_ac : ℕ
pin_out_ac = 3

abbrev pub freq_step : ℕ
freq_step = 75

abbrev pub level_of : Bool → ℕ
level_of on = if on then 1 else 0

-- The constructors of the two relays run before `setup`.
abbrev pub relay_new : ℕ → HardwareCall
relay_new output_pin = pin_mode output_pin output

abbrev pub relay_set_status : Bool → ℕ → HardwareCall
relay_set_status on output_pin = digital_write output_pin (level_of on)

abbrev pub light_switch_setup : List HardwareCall
light_switch_setup =
    relay_new pin_out_relay1
    ∷ (relay_new pin_out_relay2
        ∷ (relay_set_status false pin_out_relay1
            ∷ (relay_set_status false pin_out_relay2
                ∷ (logging_setup serial_speed
                    ∷ (button_setup pin_in_button
                        ∷ (pin_mode pin_out_ac output
                            ∷ (attach_rising pin_in_zero_cross
                                ∷ (timer1_initialize freq_step
                                    ∷ (timer1_attach_interrupt freq_step ∷ [])))))))))

abbrev pub baud_rate : ℕ
baud_rate = 115200

abbrev pub digital_input_sensor : ℕ
digital_input_sensor = 3

abbrev pub button_pin : ℕ
button_pin = 4

abbrev pub relay_pin : ℕ
relay_pin = 5

-- `2 * 60 * 1000U`: an `unsigned int` has 16 bits on the AVR.
abbrev pub timer_delay_ms : ℕ
timer_delay_ms = (2 * 60 * 1000) % 2 ^ 16

-- Called by the radio library before it starts.
abbrev pub before : List HardwareCall
before = logging_setup baud_rate ∷ []

-- By the state that `loadState` gives.
abbrev pub motion_setup : ℕ → List HardwareCall
motion_setup state =
    pin_mode 13 output
    ∷ (digital_write 13 0
        ∷ (logging_setup baud_rate
            ∷ (pin_mode button_pin input
                ∷ (digital_write button_pin 1
                    ∷ (bounce_attach button_pin
                        ∷ (bounce_interval 5
                            ∷ (digital_write relay_pin relay_off
                                ∷ (pin_mode relay_pin output
                                    ∷ (digital_write relay_pin (pin_level state)
                                        ∷ (pin_mode digital_input_sensor input
                                            ∷ (ms_timer2_set timer_delay_ms
                                                ∷ (ms_timer2_start ∷ []))))))))))))

-- The level last written to a pin, if any is written.
abbrev pub last_write : ℕ → Option ℕ → List HardwareCall → Option ℕ
last_write pin old [] = old
last_write pin old (digital_write p level ∷ cs) =
    last_write pin (if p == pin then some level else old) cs
last_write pin old (_ ∷ cs) = last_write pin old cs

-- After set-up from power-on, the level that was last written to the pin of each relay is that of the
-- model, and PIN_OUT_AC was not written.
pub light_switch_pins :
    (e : Eeprom) (rom : e.Rom)
    → let s = setup e (power_on e rom) in
      (last_write s.relay1.output_pin none light_switch_setup ≡ some (level_of s.relay1.output))
      × (last_write s.relay2.output_pin none light_switch_setup ≡ some (level_of s.relay2.output))
      × (last_write pin_out_ac none light_switch_setup ≡ none)
unfolding setup power_on new_relay reset set_status eeprom_restore
light_switch_pins e rom = (refl, refl, refl)

-- After set-up, the level that was last written to RELAY_PIN is that of the model, whatever was saved.
pub motion_pin :
    (p : Motion.Platform) (s : Motion.Node p)
    → last_write relay_pin none (motion_setup (p.load_state s.rom))
      ≡ some (Motion.setup p s).relay_pin
unfolding Motion.setup
motion_pin p s = refl
