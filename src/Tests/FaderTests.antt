-- ===== src/Tests/FaderTests.antt =====
-- The faders at concrete times.
use smarthouse_arduino.Base.{
  ◌≤◌, ◌≡◌, ◌↔◌, refl, Bool, true, false, none, some, List, ◌++◌, [], ◌∷◌, map, arith,
  if◌then◌else◌, ◌+ℤ◌,
}
use smarthouse_arduino.Kitchen.Board.{IsBoard}
use smarthouse_arduino.Kitchen.Leds.{leds_start_transition, leds_set_transition, leds_fade_from}
use smarthouse_arduino.Kitchen.Passes.{TurnsWithin}
use smarthouse_arduino.Kitchen.State.{
  Kitchen, trans_run, network_send_color_status, TransitionRunning,
}
use smarthouse_arduino.Kitchen.Store.{empty_storage}
use smarthouse_arduino.Kitchen.Types.{color, no_color}
use smarthouse_arduino.LedFader.{
  Fader, new_fader, fade, update, get_value, is_fading, IsReady, set_value, stop_fade,
}
use smarthouse_arduino.LedFader.Commanded.{
  at, commanded, asked, loop_message, received_transition_turns,
}
use smarthouse_arduino.Kitchen.Networking.{receive, on_message_set_transition}
use smarthouse_arduino.Kitchen.Parsing.{Bytes}
use smarthouse_arduino.LedFader.Completion.{fade_completes}
use smarthouse_arduino.LedFader.Fade.{tick_at}
use smarthouse_arduino.LedFader.Implements.{fader_board, fader_board-IsBoard, laws}
use smarthouse_arduino.Kitchen.Outcomes.{Settled, Switched}
use smarthouse_arduino.Kitchen.Loops.{loops}
use smarthouse_arduino.LedFader.Pressing.{rests, short_press_settles}
use smarthouse_arduino.NewButton.{NewButton, new, register}
use smarthouse_arduino.NewButton.Hold.{IsIdle}
use smarthouse_arduino.NewButton.Press.{Poll, up_at, released, poll, done}
use smarthouse_arduino.Kitchen.Sketch.{Callback, kitchen_button}
use smarthouse_arduino.LedFader.Steps.{updates, updates-between}
use smarthouse_arduino.LedFader.Wiring.{power_on}
use smarthouse_arduino.LedFader.Turning.{transition_turns_in_time}
use smarthouse_arduino.Tests.Samples.{orange, teal, digits_stdlib, digits_stdlib-IsDocumented}
use smarthouse_arduino.Tests.FaderSamples.{fractions, fractions-IsFloat, cells, cells-IsRom}

-- A red LED at level 10.
abbrev dim : Fader fractions
dim = record {
  pin = 3;
  last_step_time = 0;
  interval = 0;
  color = 10;
  to_color = 0;
  duration = 0;
  percent_done = (0, 1);
  curve = none;
  output = none;
}

dim-IsReady : IsReady fractions dim
dim-IsReady = record {
  pinned = omega arith;
  bounded = omega arith;
  color_byte = omega arith;
  target_byte = omega arith;
}

-- Halfway through a fade of two seconds from 10 to 30.
halfway :
    (updates fractions-IsFloat (tick_at 6000 ∷ []) (fade fractions 5000 30 2000 dim)).color ≡ 20
unfolding updates update fade stop_fade set_value ◌+ℤ◌
halfway = refl

updates-between_example :
    (10 ≤ (updates fractions-IsFloat (tick_at 6000 ∷ []) (fade fractions 5000 30 2000 dim)).color)
    × ((updates fractions-IsFloat (tick_at 6000 ∷ []) (fade fractions 5000 30 2000 dim)).color ≤ 30)
updates-between_example =
    updates-between fractions-IsFloat 10 30 5000 30 2000 (tick_at 6000 ∷ []) dim (omega arith)
      (omega arith) (omega arith) (omega arith) (omega arith)

-- The fade takes steps of 100 milliseconds; two updates are enough.
abbrev faded : Fader fractions
faded = updates fractions-IsFloat (map tick_at (6000 ∷ 7200 ∷ [])) (fade fractions 5000 30 2000 dim)

fade_completes_example : (get_value fractions faded ≡ 30) × (is_fading fractions faded ≡ false)
unfolding fade stop_fade
fade_completes_example =
    fade_completes fractions-IsFloat 5000 30 2000 (6000 ∷ 7200 ∷ []) dim dim-IsReady (omega arith)
      (omega arith) (omega arith) (omega arith)

fader_board-IsBoard_example : IsBoard (fader_board fractions cells)
fader_board-IsBoard_example = fader_board-IsBoard fractions-IsFloat cells cells-IsRom

abbrev pulsing : TransitionRunning
pulsing = record {
  running = false;
  transition = record { start = orange; stop = teal; time = 900; is_loop = true };
  direction = false;
}

-- The globals with a transition that was set.
abbrev wired : Kitchen (fader_board fractions cells)
wired = record (power_on fractions cells empty_storage) {
  trans_color = pulsing;
  trans_white = pulsing;
}

transition_turns_in_time_example :
    TurnsWithin (fader_board fractions cells) color (1500 ∷ 2500 ∷ []) (
      leds_start_transition
        (fader_board fractions cells)
        color
        true
        (record wired { clock = 1000 }))
unfolding leds_start_transition fade set_value stop_fade new_fader
transition_turns_in_time_example =
    transition_turns_in_time fractions-IsFloat cells color 1000 (1500 ∷ 2500 ∷ []) wired refl
      (omega arith, omega arith, omega arith, omega arith) (omega arith) (omega arith) (omega arith)

abbrev nine_hundred : Bytes
nine_hundred = b'9' ∷ b'0' ∷ b'0' ∷ []

-- The command "3,<orange>,<teal>,900" at reading 1000, from power-on.
abbrev looped : Kitchen (fader_board fractions cells)
looped =
    commanded (fader_board fractions cells) color (asked color orange teal nine_hundred)
      (at (fader_board fractions cells) 1000 (power_on fractions cells empty_storage))

received_transition_turns_example :
    (receive
        (fader_board fractions cells)
        digits_stdlib
        (loop_message color orange teal nine_hundred false)
        (at (fader_board fractions cells) 1000 (power_on fractions cells empty_storage))
      ≡ some looped)
    × ((trans_run (fader_board fractions cells) color looped).transition
        ≡ asked color orange teal nine_hundred)
    × TurnsWithin (fader_board fractions cells) color (1500 ∷ 2500 ∷ []) looped
unfolding on_message_set_transition leds_set_transition leds_start_transition fade set_value
    stop_fade new_fader network_send_color_status leds_fade_from
received_transition_turns_example =
    received_transition_turns fractions-IsFloat cells digits_stdlib color orange teal nine_hundred
      false 1000 (1500 ∷ 2500 ∷ []) (power_on fractions cells empty_storage)
      digits_stdlib-IsDocumented (omega arith, omega arith, omega arith, omega arith)
      (omega arith, omega arith, omega arith, omega arith) (omega arith) (omega arith) (omega arith)
      (omega arith) (omega arith) (omega arith)

-- New faders, and a stored colour of the button.
abbrev with_orange : Kitchen (fader_board fractions cells)
with_orange = record (power_on fractions cells empty_storage) {
  storage = record empty_storage { button_colors = orange };
}

with_orange-Settled : Settled (laws fractions-IsFloat cells cells-IsRom) no_color with_orange
unfolding laws is_fading new_fader
with_orange-Settled = record {
  shown = record {
    colors = (refl, refl, refl);
    whites = refl;
    no_color_run = refl;
    no_white_run = refl;
  };
  at_rest = record { rest_r = refl; rest_g = refl; rest_b = refl; rest_w = refl };
}

abbrev polls : List Poll
polls =
    up_at 5000 5000
    ∷ ((record { status = true; now = 0; later = 5400 } ∷ [])
        ++ (released 0 5500 ∷ rests (6000 ∷ (9000 ∷ (12000 ∷ [])))))

abbrev pressed : NewButton Callback × Kitchen (fader_board fractions cells)
pressed = loops (fader_board fractions cells) polls (kitchen_button, with_orange)

short_press_settles_example :
    IsIdle pressed.0
    × (on : Bool) × Settled
        (laws fractions-IsFloat cells cells-IsRom)
        (if on then orange else no_color)
        pressed.1
    × Switched (laws fractions-IsFloat cells cells-IsRom) on with_orange pressed.1
    × ((on ≡ false) ↔ (no_color ≡ orange))
unfolding kitchen_button new register
short_press_settles_example =
    short_press_settles fractions-IsFloat cells cells-IsRom no_color kitchen_button with_orange 5000
      5000 5400 0 5500 (record { status = true; now = 0; later = 5400 } ∷ [])
      (6000 ∷ (9000 ∷ (12000 ∷ []))) refl (omega arith, omega arith, omega arith, omega arith)
      with_orange-Settled
      (record { released = refl; no_time = refl; idle_status = refl; idle_before = refl })
      (omega arith) (omega arith) (omega arith) (omega arith)
      (poll 0 5400 (omega arith) (omega arith) done) refl (omega arith) (omega arith)
