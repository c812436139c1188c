-- ===== src/LedFader/Wiring.antt =====
-- The globals of the Kitchen sketch before set-up, with the faders on their pins.
use smarthouse_arduino.Base.{ℕ, [], arith}
use smarthouse_arduino.Kitchen.Leds.{not_running}
use smarthouse_arduino.Kitchen.State.{Kitchen, both}
use smarthouse_arduino.Kitchen.Store.{empty_storage}
use smarthouse_arduino.LedFader.{Float}
use smarthouse_arduino.LedFader.Implements.{Rom, led, fader_board}

abbrev pub pin_in_red : ℕ
pin_in_red = 3

abbrev pub pin_in_green : ℕ
pin_in_green = 5

abbrev pub pin_in_blue : ℕ
pin_in_blue = 6

abbrev pub pin_in_white : ℕ
pin_in_white = 9

-- The memory keeps what it held.
abbrev pub power_on : (f : Float) (m : Rom) → m.Cells → Kitchen (fader_board f m)
power_on f m cells = record {
  led_r = led f pin_in_red (omega arith);
  led_g = led f pin_in_green (omega arith);
  led_b = led f pin_in_blue (omega arith);
  led_w = led f pin_in_white (omega arith);
  trans_color = not_running;
  trans_white = not_running;
  storage = empty_storage;
  rom = cells;
  button_mode = both;
  errno = 0;
  clock = 0;
  sent = [];
}
