-- ===== src/Tests/Samples.antt =====
-- A C library and a board that behave as documented, and globals of the Kitchen sketch over them.
use smarthouse_arduino.Base.{
  ℕ, true, false, ◌+◌, ◌-◌, ◌*◌, ◌%◌, ◌^◌, ◌≡◌, refl, not, Option, none, some, [], ◌∷◌, arith, ltb,
  ◌==◌, if◌then◌else◌,
}
use smarthouse_arduino.Kitchen.Board.{Board, IsBoard}
use smarthouse_arduino.Kitchen.Leds.{not_running}
use smarthouse_arduino.Kitchen.Parsing.{Bytes, Stdlib, Conversion}
use smarthouse_arduino.Kitchen.Parsing.Text.{hex_value, decimal_from, erange, IsDocumented}
use smarthouse_arduino.Kitchen.State.{Kitchen, both}
use smarthouse_arduino.Kitchen.Store.{empty_storage}
use smarthouse_arduino.Kitchen.Types.{Rgbw, Storage, IsByteColor, IsByteStorage}

abbrev pair_value : Option ℕ → Option ℕ → ℕ
pair_value (some x) (some y) = x * 16 + y
pair_value _ _ = 0

abbrev strtol_pair : Bytes → ℕ
strtol_pair (x ∷ y ∷ []) = pair_value (hex_value x) (hex_value y)
strtol_pair _ = 0

abbrev decimal_conversion : ℕ → Conversion
decimal_conversion n =
    if ltb n (2 ^ 32)
    then record { value = n; error = none }
    else record { value = 2 ^ 32 - 1; error = some erange }

abbrev pub digits_stdlib : Stdlib
digits_stdlib = record {
  strtol = λ str base. record { value = strtol_pair str; error = none };
  strtoul = λ str base. decimal_conversion (decimal_from 0 str);
  prints_null = true;
}

pub digits_stdlib-IsDocumented : IsDocumented digits_stdlib
digits_stdlib-IsDocumented = record {
  hex_pair = λ x y hx hy ex ey. rw (ex, ey);
  fits = λ ds h d l. ground arith;
  overflows = λ ds h d l. ground arith;
  never_clears = λ str base. ground arith;
  null_prints = refl;
}

abbrev pub orange : Rgbw
orange = record { r = 255; g = 128; b = 0; w = 7 }

abbrev pub teal : Rgbw
teal = record { r = 0; g = 128; b = 129; w = 0 }

-- A LED that reaches its goal at the next update.
pub record Lamp : Type 0 where
  pub level : ℕ
  pub goal : ℕ

abbrev pub byte_color : Rgbw → Rgbw
byte_color c = record { r = c.r % 256; g = c.g % 256; b = c.b % 256; w = c.w % 256 }

abbrev pub byte_storage : Storage → Storage
byte_storage s = record {
  version = s.version % 256;
  external_colors = byte_color s.external_colors;
  button_colors = byte_color s.button_colors;
}

byte_color_lem : (c : Rgbw) → IsByteColor c → byte_color c ≡ c
byte_color_lem c h =
    let r : c.r % 256 ≡ c.r = omega (arith, h.0) in
    let g : c.g % 256 ≡ c.g = omega (arith, h.1) in
    let b : c.b % 256 ≡ c.b = omega (arith, h.2) in
    let w : c.w % 256 ≡ c.w = omega (arith, h.3) in rw (r, g, b, w)

pub byte_storage_lem : (s : Storage) → IsByteStorage s → byte_storage s ≡ s
byte_storage_lem s h =
    let v : s.version % 256 ≡ s.version = omega (arith, h.version_byte) in
    rw (
      v,
      byte_color_lem s.external_colors h.external_bytes,
      byte_color_lem s.button_colors h.button_bytes,
    )

pub byte_color-IsByteColor : (c : Rgbw) → IsByteColor (byte_color c)
byte_color-IsByteColor c = (omega arith, omega arith, omega arith, omega arith)

abbrev pub lamp_board : Board
lamp_board = record {
  Led = Lamp;
  set_value = λ v l. record l { level = v };
  fade = λ now v time l. record l { goal = v };
  update = λ now l. record l { level = l.goal };
  get_value = λ l. l.level;
  Rom = Storage;
  rom_get = byte_storage;
  rom_put = λ x r. x;
}

pub is_fading-update : (l : Lamp) → not (l.goal == l.goal) ≡ false
is_fading-update l = ground arith

pub rests : (l : Lamp) → not (l.level == l.goal) ≡ false → l.level ≡ l.goal
rests l h = ground arith

unfoldable pub lamp_board-IsBoard : IsBoard lamp_board
lamp_board-IsBoard = record {
  destination = λ l. l.goal;
  is_fading = λ l. not (l.level == l.goal);
  rom_get-rom_put = λ x r h. byte_storage_lem x h;
  rom_bytes = λ r. record {
    version_byte = omega arith;
    external_bytes = byte_color-IsByteColor r.external_colors;
    button_bytes = byte_color-IsByteColor r.button_colors;
  };
  destination-fade = λ now v time l h. refl;
  destination-update = λ now l. refl;
  is_fading-update = λ now l h. is_fading-update l;
  rests = λ l h. rests l h;
}

abbrev dark : Lamp
dark = record { level = 0; goal = 0 }

-- The globals before `setup`, over an EEPROM that was never written.
abbrev pub blank : Kitchen lamp_board
blank = record {
  led_r = dark;
  led_g = dark;
  led_b = dark;
  led_w = dark;
  trans_color = not_running;
  trans_white = not_running;
  storage = empty_storage;
  rom = record empty_storage { version = 255 };
  button_mode = both;
  errno = 0;
  clock = 0;
  sent = [];
}
