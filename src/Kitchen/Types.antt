-- ===== src/Kitchen/Types.antt =====
-- sketches/Kitchen/Types.h. Bytes are numbers; `unsigned long` is 32 bits wide on the AVR.
use smarthouse_arduino.Base.{ℕ, ◌<◌, Bool, false}

-- `char` values of `enum Command`; a received command character need not be one of them.
abbrev pub command_none : ℕ
command_none = 0

abbrev pub light_set_ext_limit : ℕ
light_set_ext_limit = b'0'

abbrev pub light_set_button_limit : ℕ
light_set_button_limit = b'1'

abbrev pub transition_one_shot : ℕ
transition_one_shot = b'2'

abbrev pub transition_loop : ℕ
transition_loop = b'3'

pub record Rgbw : Type 0 where
  pub r : ℕ
  pub g : ℕ
  pub b : ℕ
  pub w : ℕ

-- `TYPES_MAX_SIZE` and `SOURCES_MAX_SIZE` only size arrays, which have one field for each constructor.
pub data LedType : Type 0 where
  color white : LedType

pub data SwitchingSource : Type 0 where
  external button : SwitchingSource

pub record Storage : Type 0 where
  pub version : ℕ
  pub external_colors : Rgbw
  pub button_colors : Rgbw

pub record Transition : Type 0 where
  pub start : Rgbw
  pub stop : Rgbw
  pub time : ℕ
  pub is_loop : Bool

abbrev pub no_color : Rgbw
no_color = record { r = 0; g = 0; b = 0; w = 0 }

abbrev pub no_transition : Transition
no_transition = record { start = no_color; stop = no_color; time = 0; is_loop = false }

abbrev pub IsByteColor : Rgbw → Type 0
IsByteColor c = (c.r < 256) × (c.g < 256) × (c.b < 256) × (c.w < 256)

pub record IsByteStorage (s : Storage) : Type 0 where
  pub version_byte : s.version < 256
  pub external_bytes : IsByteColor s.external_colors
  pub button_bytes : IsByteColor s.button_colors
