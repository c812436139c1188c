-- ===== src/Tests/KitchenTests.antt =====
-- The Kitchen sketch over lamps: messages and presses after start-up.
use mathlib.Core.Option
use smarthouse_arduino.Base.{
  codes, ◌↔◌, ℕ, ◌≡◌, refl, true, false, Option, none, some, List, [], ◌∷◌, arith,
}
use smarthouse_arduino.Kitchen.Aim.{IsAimed, AimsAt, goal}
use smarthouse_arduino.Kitchen.History.{Event, message, pass, Device, step, run}
use smarthouse_arduino.Kitchen.Status.{status, IsDark}
use smarthouse_arduino.Kitchen.Honest.{off_status_is_true}
use smarthouse_arduino.Kitchen.Memory.{recorder, run-recorder}
use smarthouse_arduino.Kitchen.Recorder.{notes}
use smarthouse_arduino.Kitchen.Networking.{
  on_command, on_message_set_transition, on_message_light, on_message_var1, run_command, receive,
}
use smarthouse_arduino.Kitchen.Leds.{
  led_process_one, leds_process, led_process_loop, leds_update, leds_start_transition,
  leds_set_transition,
}
use smarthouse_arduino.Kitchen.Parsing.{
  Stdlib, hex_to_byte, string_to_ulong, parse_command_string, scan,
}
use smarthouse_arduino.Kitchen.Parsing.Command.{
  parse_command, dispatch_command, parse_cmd_transition, string_to_rgbw,
}
use smarthouse_arduino.Kitchen.Parsing.Text.{hex_digit}
use smarthouse_arduino.Kitchen.Parsing.Payloads.{limit_payload, transition_payload}
use smarthouse_arduino.Kitchen.Limits.{receive_limit, limit_remembered}
use smarthouse_arduino.Kitchen.Remote.{light_message, command_message, Switched, receive_light}
use smarthouse_arduino.Kitchen.Sketch.{setup, loop, call_all, kitchen_button}
use smarthouse_arduino.Kitchen.State.{Kitchen}
use smarthouse_arduino.Kitchen.Synced.{power_cycle}
use smarthouse_arduino.Kitchen.Turn.{transition_aims}
use smarthouse_arduino.Kitchen.Arrival.{heading, transition_turns}
use smarthouse_arduino.Kitchen.Survival.{AnyFatal, run-none}
use smarthouse_arduino.Kitchen.Types.{IsByteColor}
use smarthouse_arduino.Kitchen.Store.{empty_storage, restore_color_leds}
use smarthouse_arduino.NewButton.{process, register, new}
use smarthouse_arduino.Kitchen.Types.{
  color, white, no_color, external, light_set_ext_limit, transition_loop,
}
use smarthouse_arduino.Tests.Samples.{
  orange, teal, digits_stdlib, digits_stdlib-IsDocumented, lamp_board, lamp_board-IsBoard, blank,
  Lamp,
}

-- A looping transition of the colours, a limit of the white LED, and two passes of the main loop.
abbrev events : List Event
events =
    message 10 (
      command_message color
        (transition_payload transition_loop color orange teal (b'9' ∷ b'0' ∷ b'0' ∷ [])))
    ∷ (message 20 (command_message white (limit_payload light_set_ext_limit white orange))
        ∷ (pass false 30 30 ∷ pass false 5000 5000 ∷ []))

abbrev start : Device lamp_board
start = (kitchen_button, setup lamp_board blank)

abbrev device : Option (Device lamp_board) → Device lamp_board
device none = start
device (some d) = d

abbrev end : Device lamp_board
end = device (run lamp_board digits_stdlib events start)

survived : run lamp_board digits_stdlib events start ≡ some end
unfolding run setup receive step on_message_var1 run_command parse_command parse_command_string scan
    hex_digit dispatch_command
survived = refl

run-recorder_example :
    Option.map (recorder lamp_board) (run lamp_board digits_stdlib events start)
    ≡ notes digits_stdlib events (recorder lamp_board start)
run-recorder_example = run-recorder lamp_board digits_stdlib events start

power_cycle_example : (setup lamp_board end.1).storage ≡ end.1.storage
power_cycle_example =
    power_cycle lamp_board lamp_board-IsBoard digits_stdlib events blank kitchen_button end.0 end.1
      survived

transition_aims_example : IsAimed lamp_board-IsBoard color end.1
transition_aims_example =
    transition_aims lamp_board-IsBoard digits_stdlib events blank kitchen_button end.0 end.1 color
      survived

-- On, and off again.
abbrev off_events : List Event
off_events =
    message 10 (light_message color true)
    ∷ (pass false 20 20 ∷ (message 30 (light_message color false) ∷ (pass false 40 40 ∷ [])))

abbrev off_end : Device lamp_board
off_end = device (run lamp_board digits_stdlib off_events start)

off_survived : run lamp_board digits_stdlib off_events start ≡ some off_end
unfolding run setup receive step
off_survived = refl

off_status : status lamp_board-IsBoard color off_end.1 ≡ some 0
unfolding run setup receive step on_message_light loop leds_process led_process_one led_process_loop
    leds_update call_all process kitchen_button register new leds_start_transition
    restore_color_leds
off_status = refl

off_status_is_true_example : IsDark lamp_board-IsBoard color off_end.1
off_status_is_true_example =
    off_status_is_true lamp_board-IsBoard digits_stdlib off_events blank kitchen_button off_end.0
      off_end.1 color off_survived off_status

abbrev lamp_at : ℕ → Lamp
lamp_at v = record { level = v; goal = v }

-- The looping transition alone, and the pass whose update brings its LEDs to the stop colour.
abbrev turning_events : List Event
turning_events =
    message 10 (
      command_message color
        (transition_payload transition_loop color orange teal (b'9' ∷ b'0' ∷ b'0' ∷ [])))
    ∷ []

abbrev turning : Device lamp_board
turning = device (run lamp_board digits_stdlib turning_events start)

turning_survived : run lamp_board digits_stdlib turning_events start ≡ some turning
unfolding run setup receive step on_message_var1 run_command parse_command parse_command_string scan
    hex_digit dispatch_command
turning_survived = refl

transition_turns_example :
    ((loop lamp_board false 30 30 turning).1.trans_color ≡ heading turning.1.trans_color)
    × AimsAt lamp_board-IsBoard color
        (goal (loop lamp_board false 30 30 turning).1.trans_color)
        (loop lamp_board false 30 30 turning).1
unfolding lamp_board-IsBoard run setup receive step on_message_var1 run_command parse_command
    parse_command_string scan hex_digit dispatch_command on_command parse_cmd_transition
    string_to_rgbw hex_to_byte string_to_ulong on_message_set_transition leds_start_transition
    leds_update leds_set_transition process kitchen_button register new
transition_turns_example =
    transition_turns lamp_board-IsBoard digits_stdlib turning_events blank kitchen_button turning.0
      turning.1 color false 30 30 turning_survived refl (refl, refl, refl) refl

-- The stored colour of the button is shown, and LEDs have come to rest.
abbrev lit : Kitchen lamp_board
lit = record blank {
  led_r = lamp_at 255;
  led_g = lamp_at 128;
  led_b = lamp_at 0;
  led_w = lamp_at 7;
  storage = record empty_storage { button_colors = orange; external_colors = teal };
}

orange-IsByteColor : IsByteColor orange
orange-IsByteColor = (omega arith, omega arith, omega arith, omega arith)

teal-IsByteColor : IsByteColor teal
teal-IsByteColor = (omega arith, omega arith, omega arith, omega arith)

-- The message that switches the colours on.
abbrev switched : Kitchen lamp_board
switched = on_message_light lamp_board (light_message color true) lit

receive_light_example :
    (receive lamp_board digits_stdlib (light_message color true) lit ≡ some switched)
    × Switched lamp_board-IsBoard color teal true lit switched
    × (switched.storage ≡ lit.storage)
    × (switched.rom ≡ lit.rom)
receive_light_example =
    receive_light lamp_board-IsBoard digits_stdlib color true lit teal-IsByteColor

receive_limit_example :
    (s' : Kitchen lamp_board) × (receive lamp_board digits_stdlib
        (command_message white (limit_payload light_set_ext_limit white orange))
        lit
      ≡ some s')
    × Switched lamp_board-IsBoard white orange true lit s'
    × (s'.storage
        ≡ record empty_storage { button_colors = orange; external_colors = record teal { w = 7 } })
    × (s'.errno ≡ 0)
receive_limit_example =
    receive_limit lamp_board-IsBoard digits_stdlib white external orange lit
      digits_stdlib-IsDocumented orange-IsByteColor refl

limit_remembered_example :
    (limited off on : Kitchen lamp_board) × (receive lamp_board digits_stdlib
        (command_message color (limit_payload light_set_ext_limit color orange))
        lit
      ≡ some limited)
    × (receive lamp_board digits_stdlib (light_message color false) limited ≡ some off)
    × (receive lamp_board digits_stdlib (light_message color true) off ≡ some on)
    × AimsAt lamp_board-IsBoard color no_color off
    × AimsAt lamp_board-IsBoard color orange on
limit_remembered_example =
    limit_remembered lamp_board-IsBoard digits_stdlib color orange lit digits_stdlib-IsDocumented
      orange-IsByteColor teal-IsByteColor refl

-- A pass, and a transition with five fields, to which the parser writes behind the array.
abbrev fatal_events : List Event
fatal_events =
    pass false 5 5
    ∷ (message 10 (command_message color (codes "2,a,b,c,d,e")) ∷ (pass false 20 20 ∷ []))

-- A library whose `vsnprintf_P` does not return on NULL.
abbrev silent_stdlib : Stdlib
silent_stdlib = record digits_stdlib { prints_null = false }

run-none_example :
    (run lamp_board digits_stdlib fatal_events start ≡ none) ↔ AnyFatal digits_stdlib fatal_events
run-none_example = run-none lamp_board digits_stdlib fatal_events start

fatal_run : run lamp_board digits_stdlib fatal_events start ≡ none
unfolding run step receive on_message_var1 run_command parse_command parse_command_string scan
fatal_run = refl

silent_run : run lamp_board silent_stdlib events start ≡ none
unfolding run step receive on_message_var1 run_command parse_command parse_command_string scan
    hex_digit
silent_run = refl
