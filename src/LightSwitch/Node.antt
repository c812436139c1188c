-- ===== src/LightSwitch/Node.antt =====
-- sketches/LightSwitchAC/LightSwitchAC.ino: the globals, the dimmer and its interrupts.
use smarthouse_arduino.Base.{
  ℕ, ◌+◌, ◌-◌, ◌%◌, ◌<◌, ◌≡◌, Bool, true, false, not, ◌&&◌, List, ◌∷◌, ltb, leb, ◌==◌,
  if◌then◌else◌,
}
use smarthouse_arduino.LightSwitch.Relay.{Relay, set_status}
use smarthouse_arduino.NewButton.{NewButton, elapsed}

abbrev pub fade_delay_slow_ms : ℕ
fade_delay_slow_ms = 50

abbrev pub fade_delay_fast_ms : ℕ
fade_delay_fast_ms = 20

abbrev pub dimmer_high : ℕ
dimmer_high = 120

abbrev pub dimmer_max : ℕ
dimmer_max = 100

abbrev pub dimmer_low : ℕ
dimmer_low = 0

-- The byte at `EEPROM_OFFSET`, read and updated by the EEPROM library.
pub record Eeprom : Type 1 where
  pub Rom : Type 0
  pub read : Rom → ℕ
  pub update : ℕ → Rom → Rom

pub record IsEeprom (e : Eeprom) : Type 0 where
  pub read_byte : (r : e.Rom) → e.read r < 256
  pub read-update : (x : ℕ) (r : e.Rom) → x < 256 → e.read (e.update x r) ≡ x

pub data LampCallback : Type 0 where
  on_btn_long_press on_btn_short_release on_btn_long_release : LampCallback

pub record Dimmer : Type 0 where
  pub actual : ℕ
  pub limit : ℕ
  pub target : ℕ
  pub delay : ℕ

-- A message handed to `send`: the light status or the light level of the lamp.
pub data LampMessage : Type 0 where
  light_status light_level : ℕ → LampMessage

-- A difference of bytes.
unfoldable pub light_dimmer_convert : ℕ → ℕ
light_dimmer_convert level = (dimmer_max + 256 - level) % 256

module _ (e : Eeprom) where
  -- `output_ac` is the level of PIN_OUT_AC; `sent` is newest first.
  pub record Node : Type 0 where
    pub button_direction : Bool
    pub dimmer : Dimmer
    pub step_counter : ℕ
    pub zero_cross : Bool
    pub dimmer_last_now : ℕ
    pub button : NewButton LampCallback
    pub relay1 : Relay
    pub relay2 : Relay
    pub output_ac : Bool
    pub rom : e.Rom
    pub sent : List LampMessage

  abbrev pub send_message : LampMessage → Node → Node
  send_message m s = record s { sent = m ∷ s.sent }

  unfoldable pub reset : Node → Node
  reset s = record s {
    step_counter = 0;
    dimmer_last_now = 0;
    zero_cross = false;
    button_direction = true;
    dimmer = record { actual = 0; limit = 0; target = 0; delay = 0 };
    relay1 = set_status false s.relay1;
    relay2 = set_status false s.relay2;
  }

  unfoldable pub change_button_direction : ℕ → ℕ → Node → Bool
  change_button_direction min max s =
      if leb max s.dimmer.actual
      then false
      else if leb s.dimmer.actual min
      then true
      else not s.button_direction

  unfoldable pub on_zero_cross_detect : Node → Node
  on_zero_cross_detect s = record s { zero_cross = true; step_counter = 0; output_ac = false }

  unfoldable pub on_timer_dim_check : Node → Node
  on_timer_dim_check s =
      if s.zero_cross && leb dimmer_max s.dimmer.actual
      then (if leb s.dimmer.actual s.step_counter
          then record s { output_ac = true; step_counter = 0; zero_cross = false }
          else record s { step_counter = s.step_counter + 1 })
      else s

  unfoldable pub eeprom_restore : Node → Node
  eeprom_restore s =
      let read = e.read s.rom in
      record s {
        dimmer = record s.dimmer {
          limit = if ltb dimmer_max read then dimmer_max else read;
          actual = dimmer_high;
          target = dimmer_high;
        };
      }

  -- The check after the write only logs.
  unfoldable pub eeprom_save : Node → Node
  eeprom_save s = record s { rom = e.update s.dimmer.limit s.rom }

  unfoldable pub dimmer_switch : Bool → ℕ → Node → Node
  dimmer_switch status delay s =
      let target = if status then dimmer_high else s.dimmer.limit in
      let message = light_status (if status then 0 else 1) in
      send_message message
        (record s { dimmer = record s.dimmer { target = target; delay = delay } })

  -- `now` is the reading of millis(); `actual` is a byte.
  unfoldable pub dimmer_process : ℕ → Node → Node
  dimmer_process now s =
      let d = s.dimmer in
      let direction = ltb d.actual d.target in
      let moved = if direction then (d.actual + 1) % 256 else (d.actual + 255) % 256 in
      let next : Node = record s { dimmer = record d { actual = moved }; dimmer_last_now = now } in
      if not direction && d.actual == dimmer_low
      then s
      else if d.actual == d.target
      then s
      else if leb d.delay (elapsed now s.dimmer_last_now)
      then next
      else s

  unfoldable pub dimmer_level : ℕ → Node → Node
  unfolding eeprom_save light_dimmer_convert
  dimmer_level level s =
      let saved =
        eeprom_save (record s { dimmer = record s.dimmer { limit = level; target = level } }) in
      send_message (light_status 1) (send_message (light_level (light_dimmer_convert level)) saved)
