-- ===== src/Tests/ButtonTests.antt =====
-- Presses of the Kitchen button at concrete times.
use smarthouse_arduino.Base.{
  ℕ, ◌+◌, ◌-◌, ◌%◌, ◌^◌, ◌≡◌, refl, true, Bool, false, ◌↔◌, List, [], ◌∷◌, ◌++◌, arith,
}
use smarthouse_arduino.Kitchen.Holding.{Outcome, whole_press, toggling_press}
use smarthouse_arduino.Kitchen.Loops.{loops}
use smarthouse_arduino.Kitchen.Outcomes.{Settled, Switched}
use smarthouse_arduino.Kitchen.Types.{no_color}
use smarthouse_arduino.Kitchen.State.{Kitchen}
use smarthouse_arduino.Kitchen.Store.{empty_storage}
use smarthouse_arduino.Tests.Samples.{lamp_board, lamp_board-IsBoard, blank, orange}
use smarthouse_arduino.Kitchen.Sketch.{Callback, on_btn_long_press, kitchen_button}
use smarthouse_arduino.NewButton.{NewButton, long, new, register, process}
use smarthouse_arduino.NewButton.Hold.{IsIdle, classify, clock_mod}
use smarthouse_arduino.NewButton.Gestures.{
  Gesture, rest, press, press_at_zero, all_polls, AllMake, run_gestures,
}
use smarthouse_arduino.NewButton.Press.{Poll, Holds, done, poll, released, run}

kitchen_button-IsIdle : IsIdle kitchen_button
unfolding kitchen_button new register
kitchen_button-IsIdle = record {
  released = refl;
  no_time = refl;
  idle_status = refl;
  idle_before = refl;
}

abbrev up : ℕ → Poll
up t = record { status = true; now = 77; later = t % clock_mod }

-- A press half a second before millis() wraps, polled three times, released after 2.3 seconds.
abbrev start : ℕ
start = 2 ^ 32 - 500

abbrev long_polls : List Poll
long_polls = up (2 ^ 32 - 400) ∷ up (2 ^ 32 + 100) ∷ up (2 ^ 32 + 1600) ∷ []

abbrev long_press : List Poll
long_press =
    record { status = true; now = start % clock_mod; later = start % clock_mod }
    ∷ (long_polls ++ released 1800 1800 ∷ [])

long_polls-Holds : Holds start start (2 ^ 32 + 1600) long_polls
long_polls-Holds = poll 77 (2 ^ 32 - 400) (omega arith) (omega arith) (
    poll 77 (2 ^ 32 + 100) (omega arith) (omega arith)
      (poll 77 (2 ^ 32 + 1600) (omega arith) (omega arith) done))

calls_long : (run kitchen_button long_press).1 ≡ on_btn_long_press ∷ []
unfolding run kitchen_button process register new
calls_long = refl

-- A rest, a press held for three seconds from a reading of 0, and the long press.
abbrev gestures : List Gesture
gestures =
    rest (released 5 5 ∷ [])
    ∷ (press_at_zero 0 3100 3100 (up 1000 ∷ up 3000 ∷ [])
        ∷ (press start start (2 ^ 32 + 1600) 1800 1800 long_polls ∷ []))

run_gestures_example :
    IsIdle (run kitchen_button (all_polls gestures)).0
    × AllMake kitchen_button gestures (run kitchen_button (all_polls gestures)).1
unfolding kitchen_button new register
run_gestures_example = run_gestures kitchen_button gestures kitchen_button-IsIdle (omega arith) (
  (refl, tt),
  ((refl, (refl, tt)), ((omega arith, omega arith, omega arith, long_polls-Holds), tt)),
)

gestures_calls : (run kitchen_button (all_polls gestures)).1 ≡ on_btn_long_press ∷ []
unfolding run kitchen_button process register new
gestures_calls = refl

-- The Kitchen globals with a stored colour of the button.
abbrev ready : Kitchen lamp_board
ready = record blank { storage = record empty_storage { button_colors = orange } }

abbrev after : NewButton Callback × Kitchen lamp_board
after = loops lamp_board long_press (kitchen_button, ready)

whole_press_example :
    IsIdle after.0 × Outcome lamp_board-IsBoard (classify kitchen_button 2100) ready after.1
unfolding kitchen_button new register
whole_press_example =
    whole_press lamp_board-IsBoard kitchen_button ready start start (2 ^ 32 + 1600) 1800 1800
      long_polls refl (omega arith, omega arith, omega arith, omega arith) kitchen_button-IsIdle
      (omega arith) (omega arith) (omega arith) (omega arith) long_polls-Holds

held_long : classify kitchen_button 2100 ≡ long
unfolding kitchen_button new register
held_long = refl

-- A press of 400 milliseconds, with one poll in between.
abbrev short_polls : List Poll
short_polls = up (2 ^ 32 - 100) ∷ []

abbrev toggled : NewButton Callback × Kitchen lamp_board
toggled =
    loops lamp_board
      (record { status = true; now = start % clock_mod; later = start % clock_mod }
        ∷ (short_polls ++ released 100 100 ∷ []))
      (kitchen_button, ready)

ready-Settled : Settled lamp_board-IsBoard no_color ready
unfolding lamp_board-IsBoard
ready-Settled = record {
  shown = record {
    colors = (refl, refl, refl);
    whites = refl;
    no_color_run = refl;
    no_white_run = refl;
  };
  at_rest = record { rest_r = refl; rest_g = refl; rest_b = refl; rest_w = refl };
}

toggling_press_example :
    IsIdle toggled.0
    × (on : Bool) × Switched lamp_board-IsBoard on ready toggled.1
    × ((on ≡ false) ↔ (no_color ≡ orange))
unfolding kitchen_button new register
toggling_press_example =
    toggling_press lamp_board-IsBoard kitchen_button ready start start (2 ^ 32 - 100) 100 100
      short_polls refl (omega arith, omega arith, omega arith, omega arith) kitchen_button-IsIdle
      (omega arith) (omega arith) (omega arith) (omega arith)
      (poll 77 (2 ^ 32 - 100) (omega arith) (omega arith) done) no_color ready-Settled refl
