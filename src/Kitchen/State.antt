-- ===== src/Kitchen/State.antt =====
-- The globals of the Kitchen sketch as one record, and the status messages of Networking.cpp.
use smarthouse_arduino.Base.{ℕ, Bool, List, ◌∷◌, if◌then◌else◌}
use smarthouse_arduino.Kitchen.Board.{Board}
use smarthouse_arduino.Kitchen.Types.{LedType, color, white, Storage, Transition}

pub record TransitionRunning : Type 0 where
  pub running : Bool
  pub transition : Transition
  pub direction : Bool

-- Kitchen.ino
pub data ButtonMode : Type 0 where
  both only_color only_white : ButtonMode

abbrev pub color_leds_id : ℕ
color_leds_id = 0

abbrev pub white_led_id : ℕ
white_led_id = 1

-- Message types of MySensors.
abbrev pub v_light : ℕ
v_light = 2

abbrev pub v_var1 : ℕ
v_var1 = 24

-- A message handed to `send`.
pub record Outgoing : Type 0 where
  pub sensor : ℕ
  pub type : ℕ
  pub value : ℕ

module _ (b : Board) where
  -- `clock` is the reading of millis() in the handler that runs; `sent` is newest first. `trans_run` has
  -- an entry for each LED type. The Kitchen.ino button object is modelled in `NewButton`.
  pub record Kitchen : Type 0 where
    pub led_r : b.Led
    pub led_g : b.Led
    pub led_b : b.Led
    pub led_w : b.Led
    pub trans_color : TransitionRunning
    pub trans_white : TransitionRunning
    pub storage : Storage
    pub rom : b.Rom
    pub button_mode : ButtonMode
    pub errno : ℕ
    pub clock : ℕ
    pub sent : List Outgoing

  abbrev pub trans_run : LedType → Kitchen → TransitionRunning
  trans_run color s = s.trans_color
  trans_run white s = s.trans_white

  abbrev pub set_trans_run : LedType → TransitionRunning → Kitchen → Kitchen
  set_trans_run color t s = record s { trans_color = t }
  set_trans_run white t s = record s { trans_white = t }

  -- `send` reports only whether the next node acknowledged, which is logged.
  abbrev pub send_message : Outgoing → Kitchen → Kitchen
  send_message m s = record s { sent = m ∷ s.sent }

  unfoldable pub network_send_color_status : Bool → Kitchen → Kitchen
  network_send_color_status on =
      send_message (record { sensor = color_leds_id; type = v_light; value = if on then 1 else 0 })

  unfoldable pub network_send_white_status : Bool → Kitchen → Kitchen
  network_send_white_status on =
      send_message (record { sensor = white_led_id; type = v_light; value = if on then 1 else 0 })
