-- ===== src/Kitchen/Recorder.antt =====
-- A machine of limit commands and presses that knows nothing of LEDs.
use mathlib.Core.Option
use smarthouse_arduino.Base.{ℕ, Option, none, some, List, [], ◌∷◌, ◌==◌, if◌then◌else◌}
use smarthouse_arduino.Kitchen.History.{Event, message, pass}
use smarthouse_arduino.Kitchen.Networking.{Incoming}
use smarthouse_arduino.Kitchen.Parsing.{Bytes, Stdlib, CommandData, limit}
use smarthouse_arduino.Kitchen.Parsing.Command.{parse_command}
use smarthouse_arduino.Kitchen.Presses.{next}
use smarthouse_arduino.Kitchen.Sketch.{Callback, on_btn_short_release, on_btn_long_press}
use smarthouse_arduino.Kitchen.State.{ButtonMode, color_leds_id, white_led_id, v_var1}
use smarthouse_arduino.Kitchen.Store.{colors, set_colors}
use smarthouse_arduino.Kitchen.Types.{
  light_set_ext_limit, light_set_button_limit, Rgbw, LedType, color, white, SwitchingSource,
  external, button, Storage,
}
use smarthouse_arduino.NewButton.{NewButton, process}

pub record Memory : Type 0 where
  pub stored : Storage
  pub mode : ButtonMode
  pub errno : ℕ

-- A limit for one kind of LED replaces the channels of that kind.
abbrev pub set_channels : ℕ → Rgbw → SwitchingSource → Storage → Storage
set_channels sensor c source x =
    if sensor == color_leds_id
    then set_colors source (record (colors source x) { r = c.r; g = c.g; b = c.b }) x
    else if sensor == white_led_id
    then set_colors source (record (colors source x) { w = c.w }) x
    else x

abbrev pub obey : ℕ → CommandData → Memory → Memory
obey sensor d m =
    if d.command == light_set_ext_limit
    then record m { stored = set_channels sensor (limit d) external m.stored }
    else if d.command == light_set_button_limit
    then record m { stored = set_channels sensor (limit d) button m.stored }
    else m

unfoldable pub read_text : Stdlib → ℕ → Option Bytes → LedType → Memory → Option Memory
read_text c sensor payload t m = elim (parse_command c payload t m.errno) [
  | none ↦ none
  | some (d, e) ↦ some (obey sensor d (record m { errno = e }))
]

unfoldable pub hear : Stdlib → Incoming → Memory → Option Memory
hear c msg m =
    if msg.type == v_var1
    then (if msg.sensor == color_leds_id
        then read_text c msg.sensor msg.string color m
        else if msg.sensor == white_led_id
        then read_text c msg.sensor msg.string white m
        else some m)
    else some m

abbrev pub press : Callback → Memory → Memory
press on_btn_short_release m = m
press on_btn_long_press m = record m { mode = next m.mode }

abbrev pub press_all : List Callback → Memory → Memory
press_all [] m = m
press_all (f ∷ fs) m = press_all fs (press f m)

abbrev pub Recorder : Type 0
Recorder = NewButton Callback × Memory

unfoldable pub note : Stdlib → Event → Recorder → Option Recorder
note c (message now msg) (btn, m) = Option.map (λ (m' : Memory). (btn, m')) (hear c msg m)
note c (pass status now later) (btn, m) =
    let (btn', calls) = process status now later btn in some (btn', press_all calls m)

unfoldable pub notes : Stdlib → List Event → Recorder → Option Recorder
notes c [] r = some r
notes c (e ∷ es) r = elim (note c e r) [ none ↦ none | some r' ↦ notes c es r' ]
