-- ===== src/Kitchen/Parsing.antt =====
-- sketches/Kitchen/Parsing.cpp: the text commands of a V_VAR1 message. A C string is the list of its
-- bytes before the NUL; `errno` is passed along, since the code tests it and never clears it.
pub mod Scan
pub mod Split
pub mod Fatal
pub mod Command
pub mod Dispatch
pub mod Reject
pub mod Errno
pub mod Refine
pub mod Text
pub mod Payloads
pub mod Accept
unfoldable pub use smarthouse_arduino.LedFader.{min_interval}
use smarthouse_arduino.Base.{
  ℕ, zero, suc, ◌+◌, ◌-◌, ◌%◌, Bool, true, false, not, ◌&&◌, Option, none, some, List, [], ◌∷◌,
  ◌++◌, ltb, leb, ◌==◌, if◌then◌else◌, length, get_or, set, drop, replicate,
}
use smarthouse_arduino.Kitchen.Types.{
  command_none, light_set_ext_limit, light_set_button_limit, transition_one_shot, transition_loop,
  Rgbw, LedType, color, white, Transition, no_color, no_transition,
}

abbrev pub Bytes : Type 0
Bytes = List ℕ

-- What a conversion of the C library returns, and what it stores in `errno`, if anything. The value is
-- the 32-bit pattern of the `long` or `unsigned long`.
pub record Conversion : Type 0 where
  pub value : ℕ
  pub error : Option ℕ

-- `strtol` and `strtoul` of the C library: text and base; and whether `vsnprintf_P`, which `log` calls,
-- returns when it is given NULL for `%s`.
pub record Stdlib : Type 0 where
  pub strtol : Bytes → ℕ → Conversion
  pub strtoul : Bytes → ℕ → Conversion
  pub prints_null : Bool

abbrev pub max_field_count : ℕ
max_field_count = 4

abbrev pub max_payload_size : ℕ
max_payload_size = 50

-- The union of `CommandData` is its `transition`; `limit` shares its first four bytes with
-- `transition.start`.
pub record CommandData : Type 0 where
  pub command : ℕ
  pub transition : Transition

abbrev pub limit : CommandData → Rgbw
limit d = d.transition.start

abbrev pub no_command : CommandData
no_command = record { command = command_none; transition = no_transition }

-- The `fields` written so far are offsets into the static buffer `data`, which is `buffer` here; the
-- slots behind them are NULL, so `count` is the length of `fields`.
pub record Record : Type 0 where
  pub command : ℕ
  pub fields : List ℕ
  pub buffer : Bytes

abbrev pub count : Record → ℕ
count r = length r.fields

-- The Boolean result, the output parameter and `errno` of a parsing function.
pub record Parsed (A : Type 0) : Type 0 where
  pub good : Bool
  pub value : A
  pub errno : ℕ

abbrev pub errno_after : Option ℕ → ℕ → ℕ
errno_after none e = e
errno_after (some x) e = x

-- The string at a pointer: the bytes up to the next NUL.
abbrev pub until_nul : Bytes → Bytes
until_nul [] = []
until_nul (c ∷ cs) = if c == 0 then [] else c ∷ until_nul cs

abbrev pub c_string : Bytes → ℕ → Bytes
c_string buffer offset = until_nul (drop offset buffer)

-- `result` is a byte, so the conversion keeps the low eight bits.
unfoldable pub hex_to_byte : Stdlib → Bytes → ℕ → Parsed ℕ
hex_to_byte c str errno =
    let n = c.strtol str 16 in
    let errno' = errno_after n.error errno in
    record { good = errno' == 0; value = n.value % 256; errno = errno' }

unfoldable pub string_to_white : Stdlib → Bytes → Rgbw → ℕ → Parsed Rgbw
string_to_white c str result errno =
    let p = hex_to_byte c str errno in
    if not (length str == 2)
    then record { good = false; value = result; errno = errno }
    else record {
      good = p.good;
      value = record { r = 0; g = 0; b = 0; w = p.value };
      errno = p.errno;
    }

unfoldable pub string_to_ulong : Stdlib → Bytes → ℕ → Parsed ℕ
string_to_ulong c str errno =
    let n = c.strtoul str 10 in
    let errno' = errno_after n.error errno in
    record { good = errno' == 0; value = n.value; errno = errno' }

-- One pass of the loop for each `i`; `none` is a write behind the last slot of `fields`.
unfoldable pub scan : ℕ → ℕ → Record → Option Record
scan zero i r = some r
scan (suc n) i r =
    let cut = record r { fields = r.fields ++ (i + 1) ∷ []; buffer = set r.buffer i 0 } in
    elim (get_or r.buffer i 0 == b',') [
      | true ↦ elim (ltb (count r) max_field_count) [ true ↦ scan n (i + 1) cut | false ↦ none ]
      | false ↦ scan n (i + 1) r
    ]

abbrev pub no_record : Record
no_record = record { command = command_none; fields = []; buffer = [] }

-- `strncpy` fills the buffer up with NULs.
abbrev pub filled : Bytes → Bytes
filled str = str ++ replicate (max_payload_size - length str) 0

unfoldable pub parse_command_string : Option Bytes → Option Record
parse_command_string none = some no_record
parse_command_string (some input) =
    let len = length input in
    let fresh : Record = record {
      command = get_or input 0 0;
      fields = if ltb 2 len then 2 ∷ [] else [];
      buffer = filled input;
    } in
    if ltb len 1
    then some no_record
    else if leb max_payload_size len
    then some no_record
    else if ltb 2 len && not (get_or input 1 0 == b',')
    then some no_record
    else scan (len - 2) 2 fresh
