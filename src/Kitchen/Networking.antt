-- ===== src/Kitchen/Networking.antt =====
-- sketches/Kitchen/Networking.cpp: the handlers of incoming messages.
use smarthouse_arduino.Base.{
  ℕ, Bool, true, false, not, ◌&&◌, ◌||◌, Option, none, some, ◌==◌, if◌then◌else◌,
}
use smarthouse_arduino.Kitchen.Board.{Board}
use smarthouse_arduino.Kitchen.Leds.{
  fade_time_ms, leds_color_fade, leds_white_fade, leds_set_transition, leds_start_transition,
}
use smarthouse_arduino.Kitchen.Parsing.{Bytes, Stdlib, CommandData, limit}
use smarthouse_arduino.Kitchen.Parsing.Command.{parse_command}
use smarthouse_arduino.Kitchen.State.{
  Kitchen, color_leds_id, white_led_id, v_light, v_var1, network_send_color_status,
  network_send_white_status,
}
use smarthouse_arduino.Kitchen.Store.{
  save_color_leds, save_white_leds, restore_color_leds, restore_white_leds,
}
use smarthouse_arduino.Kitchen.Types.{
  light_set_ext_limit, light_set_button_limit, transition_one_shot, transition_loop, Rgbw, LedType,
  color, white, SwitchingSource, external, button, Transition,
}

-- What the sketch reads of a received message: `getBool()` and `getString()` are its payload.
pub record Incoming : Type 0 where
  pub sensor : ℕ
  pub type : ℕ
  pub bool : Bool
  pub string : Option Bytes

module _ (b : Board) where
  unfoldable pub on_message_set_limit : ℕ → Rgbw → SwitchingSource → Kitchen b → Kitchen b
  on_message_set_limit sensor c source s =
      if sensor == color_leds_id
      then network_send_color_status b true (
          leds_color_fade b c.r c.g c.b fade_time_ms
            (save_color_leds b source c.r c.g c.b (leds_start_transition b color false s)))
      else if sensor == white_led_id
      then network_send_white_status b true (
          leds_white_fade b c.w fade_time_ms
            (save_white_leds b source c.w (leds_start_transition b white false s)))
      else s

  unfoldable pub on_message_set_transition : ℕ → Transition → Kitchen b → Kitchen b
  on_message_set_transition sensor x s =
      if sensor == color_leds_id
      then network_send_color_status b true
          (leds_start_transition b color true (leds_set_transition b color x s))
      else if sensor == white_led_id
      then network_send_white_status b true
          (leds_start_transition b white true (leds_set_transition b white x s))
      else s

  unfoldable pub on_message_light_off : ℕ → Kitchen b → Kitchen b
  on_message_light_off sensor s =
      if sensor == color_leds_id
      then network_send_color_status b false
          (leds_color_fade b 0 0 0 fade_time_ms (leds_start_transition b color false s))
      else if sensor == white_led_id
      then network_send_white_status b false
          (leds_white_fade b 0 fade_time_ms (leds_start_transition b white false s))
      else s

  unfoldable pub on_message_light_on : ℕ → Kitchen b → Kitchen b
  on_message_light_on sensor s =
      if sensor == color_leds_id
      then restore_color_leds b external (leds_start_transition b color false s)
      else if sensor == white_led_id
      then restore_white_leds b external (leds_start_transition b white false s)
      else s

  unfoldable pub on_message_light : Incoming → Kitchen b → Kitchen b
  unfolding on_message_light_on on_message_light_off
  on_message_light m s =
      if m.bool then on_message_light_on m.sensor s else on_message_light_off m.sensor s

  -- The `switch` of `on_message_var1`.
  unfoldable pub on_command : ℕ → CommandData → Kitchen b → Kitchen b
  on_command sensor d s =
      if d.command == light_set_ext_limit
      then on_message_set_limit sensor (limit d) external s
      else if d.command == light_set_button_limit
      then on_message_set_limit sensor (limit d) button s
      else if d.command == transition_one_shot || d.command == transition_loop
      then on_message_set_transition sensor d.transition s
      else s

  -- `none` is a run of the parser that leaves the language.
  unfoldable pub run_command : Stdlib → ℕ → Option Bytes → LedType → Kitchen b → Option (Kitchen b)
  run_command c sensor payload t s = elim (parse_command c payload t s.errno) [
    | none ↦ none
    | some (d, e) ↦ some (on_command sensor d (record s { errno = e }))
  ]

  unfoldable pub on_message_var1 : Stdlib → Incoming → Kitchen b → Option (Kitchen b)
  on_message_var1 c m s =
      if m.sensor == color_leds_id
      then run_command c m.sensor m.string color s
      else if m.sensor == white_led_id
      then run_command c m.sensor m.string white s
      else some s

  unfoldable pub receive : Stdlib → Incoming → Kitchen b → Option (Kitchen b)
  receive c m s =
      if not (m.sensor == color_leds_id) && not (m.sensor == white_led_id)
      then some s
      else if m.type == v_light
      then some (on_message_light m s)
      else if m.type == v_var1
      then on_message_var1 c m s
      else some s
