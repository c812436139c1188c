-- ===== src/Motion.antt =====
-- sketches/MotionLightWithRelay: motion and light sensors, a button and a relay.
pub mod Reports
pub mod Restart
pub mod View
pub mod Shared
pub mod Timed
pub mod Preempted
use smarthouse_arduino.Base.{
  ℕ, ◌-◌, ◌<◌, ◌≡◌, Bool, true, false, not, ◌&&◌, List, [], ◌∷◌, ◌==◌, if◌then◌else◌,
}

abbrev pub child_id_light : ℕ
child_id_light = 0

abbrev pub child_id_relay : ℕ
child_id_relay = 1

abbrev pub child_id_mot : ℕ
child_id_mot = 2

-- The message type of MySensors.
abbrev pub v_light : ℕ
v_light = 2

abbrev pub relay_on : ℕ
relay_on = 0

abbrev pub relay_off : ℕ
relay_off = 1

-- `loadState` and `saveState` of MySensors at the relay's position, and the division of a reading by the
-- floating-point number 10.23, cut to an `int`.
pub record Platform : Type 1 where
  pub Rom : Type 0
  pub load_state : Rom → ℕ
  pub save_state : ℕ → Rom → Rom
  pub divided : ℕ → ℕ

pub record IsPlatform (p : Platform) : Type 0 where
  pub load-save : (x : ℕ) (r : p.Rom) → x < 256 → p.load_state (p.save_state x r) ≡ x

-- A message handed to `send`; only a relay message asks for an acknowledgement.
pub data Sent : Type 0 where
  motion : Bool → Sent
  light : ℕ → Sent
  relay : Bool → Sent

pub record Incoming : Type 0 where
  pub is_ack : Bool
  pub sensor : ℕ
  pub type : ℕ
  pub bool : Bool

-- What a pass of `loop` reads: the motion pin, the analog pin, and the debounced button.
pub record Inputs : Type 0 where
  pub movement : Bool
  pub analog : ℕ
  pub button : Bool

abbrev pub truth : ℕ → Bool
truth x = not (x == 0)

abbrev pub pin_level : ℕ → ℕ
pin_level state = if truth state then relay_on else relay_off

module _ (p : Platform) where
  -- `relay_pin` is the level of RELAY_PIN; `sent` is newest first.
  pub record Node : Type 0 where
    pub relay_state : ℕ
    pub button_state : Bool
    pub movement_detected : Bool
    pub light_level : ℕ
    pub relay_pin : ℕ
    pub rom : p.Rom
    pub sent : List Sent

  abbrev pub message_send : Sent → Node → Node
  message_send m s = record s { sent = m ∷ s.sent }

  unfoldable pub reset : Node → Node
  reset s = record s {
    button_state = false;
    relay_state = 0;
    movement_detected = false;
    light_level = 0;
  }

  unfoldable pub setup : Node → Node
  unfolding reset
  setup s =
      let state = p.load_state s.rom in
      record (reset s) { relay_state = state; relay_pin = pin_level state }

  unfoldable pub movement_sensor_process : Bool → Node → Node
  movement_sensor_process detected s =
      if detected && not s.movement_detected
      then message_send (motion true) (record s { movement_detected = true })
      else if not detected && s.movement_detected
      then message_send (motion false) (record s { movement_detected = false })
      else s

  unfoldable pub light_level_process : ℕ → Node → Node
  light_level_process analog s =
      let level = p.divided (1023 - analog) in
      if level == s.light_level
      then s
      else message_send (light level) (record s { light_level = level })

  -- The button's part of `loop`: a release asks the controller for the other state of the relay.
  unfoldable pub button_process : Bool → Node → Node
  button_process new_state s =
      let after =
        if s.button_state && not new_state
        then message_send (relay (not (truth s.relay_state))) s
        else s in
      record after { button_state = new_state }

  unfoldable pub loop : Inputs → Node → Node
  loop i s =
      button_process i.button (light_level_process i.analog (movement_sensor_process i.movement s))

  unfoldable pub receive : Incoming → Node → Node
  receive m s =
      let state = if m.bool then 1 else 0 in
      if m.is_ack
      then s
      else if not (m.sensor == child_id_relay)
      then s
      else if m.type == v_light
      then record s {
        relay_state = state;
        relay_pin = pin_level state;
        rom = p.save_state state s.rom;
      }
      else s

  unfoldable pub on_send_timer : Node → Node
  on_send_timer s = message_send (light s.light_level) (message_send (motion s.movement_detected) s)

-- What happens to the node after set-up.
pub data Event : Type 0 where
  message : Incoming → Event
  pass : Inputs → Event
  timer : Event

module _ (p : Platform) where
  unfoldable pub step : Event → Node p → Node p
  step (message m) s = receive p m s
  step (pass i) s = loop p i s
  step timer s = on_send_timer p s

  unfoldable pub steps : List Event → Node p → Node p
  steps [] s = s
  steps (x ∷ xs) s = steps xs (step x s)
