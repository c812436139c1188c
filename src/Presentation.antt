-- ===== src/Presentation.antt =====
-- The functions `presentation` of the three sketches: what a node tells the controller about its sensors.
use Prim.Native.String.{String}
use smarthouse_arduino.Base.{ℕ, ◌≡◌, Bool, false, ◌||◌, some, List, [], ◌∷◌, arith, ◌==◌}
use smarthouse_arduino.Kitchen.Board.{Board}
use smarthouse_arduino.Kitchen.Networking
use smarthouse_arduino.Kitchen.Parsing.{Stdlib}
use smarthouse_arduino.Kitchen.State.{Kitchen, color_leds_id, white_led_id}
use smarthouse_arduino.LightSwitch.Node
use smarthouse_arduino.LightSwitch.Sketch
use smarthouse_arduino.LightSwitch.Sketch.{ms_lamp_id, ms_relay1_id, ms_relay2_id}
use smarthouse_arduino.Motion
use smarthouse_arduino.Motion.{child_id_relay, child_id_mot, child_id_light}

-- Sensor types of MySensors.
pub data SensorType : Type 0 where
  s_rgb_light s_light s_motion s_light_level : SensorType

-- The calls of `sendSketchInfo` and `present`.
pub data Call : Type 0 where
  send_sketch_info : String → String → Call
  present : ℕ → SensorType → String → Call

abbrev pub kitchen_presentation : List Call
kitchen_presentation =
    send_sketch_info "KitchenLEDs" "0.4"
    ∷ (present color_leds_id s_rgb_light "Color LEDs"
        ∷ (present white_led_id s_light "White LED" ∷ []))

abbrev pub light_switch_presentation : List Call
light_switch_presentation =
    send_sketch_info "LightSwitchAC" "0.3"
    ∷ (present ms_lamp_id s_light "Lamp"
        ∷ (present ms_relay1_id s_light "Relay 1" ∷ (present ms_relay2_id s_light "Relay 2" ∷ [])))

abbrev pub motion_presentation : List Call
motion_presentation =
    send_sketch_info "Balcony Light" "1.2"
    ∷ (present child_id_relay s_light "Relay"
        ∷ (present child_id_mot s_motion "Motion"
            ∷ (present child_id_light s_light_level "LUX" ∷ [])))

-- A sensor that one of the calls presents.
abbrev pub is_presented : ℕ → List Call → Bool
is_presented sensor [] = false
is_presented sensor (send_sketch_info name version ∷ cs) = is_presented sensor cs
is_presented sensor (present id type name ∷ cs) = sensor == id || is_presented sensor cs

-- The Kitchen sketch ignores every message to a sensor that it does not present.
pub kitchen_unpresented :
    (b : Board) (c : Stdlib) (m : Networking.Incoming) (s : Kitchen b)
    → is_presented m.sensor kitchen_presentation ≡ false
    → Networking.receive b c m s ≡ some s
unfolding Networking.receive
kitchen_unpresented b c m s h = ground (arith, h)

-- The LightSwitchAC sketch ignores every message to a sensor that it does not present.
pub light_switch_unpresented :
    (e : Node.Eeprom) (m : Sketch.Incoming) (s : Node.Node e)
    → is_presented m.sensor light_switch_presentation ≡ false
    → Sketch.receive e m s ≡ s
unfolding Sketch.receive
light_switch_unpresented e m s h = ground (arith, h)

-- The MotionLightWithRelay sketch ignores every message to a sensor that it does not present.
pub motion_unpresented :
    (p : Motion.Platform) (m : Motion.Incoming) (s : Motion.Node p)
    → is_presented m.sensor motion_presentation ≡ false
    → Motion.receive p m s ≡ s
unfolding Motion.receive
motion_unpresented p m s h = ground (arith, h)
