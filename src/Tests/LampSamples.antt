-- ===== src/Tests/LampSamples.antt =====
-- A lamp of the LightSwitchAC sketch and a press of its button.
use smarthouse_arduino.Base.{ℕ, ◌%◌, true, false, List, [], ◌∷◌, ◌++◌, arith}
use smarthouse_arduino.LightSwitch.Node.{Eeprom, IsEeprom, Node}
use smarthouse_arduino.LightSwitch.Sketch.{power_on, setup, Inputs}
use smarthouse_arduino.NewButton.Press.{Poll, released}

-- A memory of one byte.
abbrev pub byte_eeprom : Eeprom
byte_eeprom = record { Rom = ℕ; read = λ r. r % 256; update = λ x r. x }

pub byte_eeprom-IsEeprom : IsEeprom byte_eeprom
byte_eeprom-IsEeprom = record { read_byte = λ r. omega arith; read-update = λ x r h. omega arith }

-- The globals before set-up; the memory was never written.
abbrev pub fresh : Node byte_eeprom
fresh = power_on byte_eeprom 255

abbrev pub short_press : List Poll
short_press =
    record { status = true; now = 5000; later = 5000 }
    ∷ ((record { status = true; now = 0; later = 5100 } ∷ []) ++ released 5200 5200 ∷ [])

-- The lamp after set-up.
abbrev pub lamp : Node byte_eeprom
lamp = setup byte_eeprom fresh

-- A pass in which the lamp's button is polled.
abbrev pub pass_of : Poll → Inputs
pass_of p = record {
  now = p.later;
  lamp = record { level = p.status; now = p.now; later = p.later };
  relay1_poll = record { level = false; now = p.later; later = p.later };
  relay2_poll = record { level = false; now = p.later; later = p.later };
}
