-- ===== src/Kitchen/Parsing/Refine.antt =====
-- `parse_command` without its buffer: the payload split at its commas, and a reading of the pieces.
use smarthouse_arduino.Base.{
  ℕ, ◌<◌, ◌≡◌, refl, sym, ap, none, length-map, ◌∙◌, inl, inr, true, false, not, ◌||◌, some, List,
  [], ◌∷◌, map, arith, leb, ◌==◌, if◌then◌else◌, length,
}
use smarthouse_arduino.Kitchen.Types.{
  light_set_ext_limit, light_set_button_limit, transition_one_shot, transition_loop, Rgbw, LedType,
  Transition, no_color,
}
use smarthouse_arduino.Kitchen.Parsing.{
  Bytes, Stdlib, no_command, Record, count, Parsed, c_string, string_to_ulong, min_interval,
  max_field_count,
}
use smarthouse_arduino.Kitchen.Parsing.Command.{
  string_to_rgbw, parse_cmd_set_limit, parse_cmd_transition, Outcome, finish_limit,
  finish_transition, dispatch_command, parse_command, parse_command-logged, log_returns,
}
use smarthouse_arduino.Kitchen.Parsing.Scan.{split, commas, HasNoNul}
use smarthouse_arduino.Kitchen.Parsing.Split.{parse_command_string-split}
use smarthouse_arduino.Kitchen.Parsing.Dispatch.{
  command_cases, dispatch_limit, dispatch_transition, dispatch_unknown,
}

-- A limit is one piece.
abbrev pub read_limit : Stdlib → LedType → List Bytes → ℕ → Parsed Rgbw
read_limit c t (str ∷ []) e = string_to_rgbw c t str no_color e
read_limit c t _ e = record { good = false; value = no_color; errno = e }

-- A transition is three: two colours, read with the `errno` of the previous step, and a time above
-- the minimum.
abbrev pub read_transition : Stdlib → LedType → List Bytes → ℕ → Parsed Transition
read_transition c t (a ∷ b ∷ d ∷ []) e =
    let start = string_to_rgbw c t a no_color e in
    let stop = string_to_rgbw c t b no_color start.errno in
    let time = string_to_ulong c d stop.errno in
    let empty = no_command.transition in
    if not start.good
    then record { good = false; value = record empty { start = start.value }; errno = start.errno }
    else if not stop.good
    then record {
      good = false;
      value = record empty { start = start.value; stop = stop.value };
      errno = stop.errno;
    }
    else record {
      good = if time.good then not (leb time.value min_interval) else false;
      value = record empty { start = start.value; stop = stop.value; time = time.value };
      errno = time.errno;
    }
read_transition c t _ e = record { good = false; value = no_command.transition; errno = e }

-- The meaning of a command character with the pieces behind it.
abbrev pub read_command : Stdlib → ℕ → LedType → List Bytes → ℕ → Outcome
read_command c k t pieces e =
    if k == light_set_ext_limit || k == light_set_button_limit
    then finish_limit k (read_limit c t pieces e)
    else if k == transition_one_shot
    then finish_transition k false (read_transition c t pieces e)
    else if k == transition_loop
    then finish_transition k true (read_transition c t pieces e)
    else (no_command, e)

-- The arguments are read from the strings of the fields, whatever the buffer looks like.
module _ (c : Stdlib) (t : LedType) (e k : ℕ) (b : Bytes) where
  set_limit-read :
      (fs : List ℕ)
      → let r : Record = record { command = k; fields = fs; buffer = b } in
        parse_cmd_set_limit c r t no_color e ≡ read_limit c t (map (c_string b) fs) e
  unfolding parse_cmd_set_limit
  set_limit-read [] = refl
  set_limit-read (x ∷ []) = refl
  set_limit-read (x ∷ y ∷ fs) = ground arith

  transition-read :
      (fs : List ℕ)
      → let r : Record = record { command = k; fields = fs; buffer = b } in
        parse_cmd_transition c r t no_command.transition e
        ≡ read_transition c t (map (c_string b) fs) e
  unfolding parse_cmd_transition
  transition-read [] = refl
  transition-read (x ∷ []) = refl
  transition-read (x ∷ y ∷ []) = refl
  transition-read (x ∷ y ∷ z ∷ []) = ground arith
  transition-read (x ∷ y ∷ z ∷ w ∷ fs) = ground arith

dispatch-read :
    (c : Stdlib) (s : Bytes) (r : Record) (t : LedType) (e : ℕ)
    → dispatch_command c (some s) r t e
      ≡ some (read_command c r.command t (map (c_string r.buffer) r.fields) e)
dispatch-read c s r t e = elim (command_cases r.command) [
  | inl k ↦
      dispatch_limit c (some s) r t e k
      ∙ ground (arith, set_limit-read c t e r.command r.buffer r.fields)
  | inr (inl (b, k)) ↦
      dispatch_transition c (some s) r t e b k
      ∙ ground (arith, transition-read c t e r.command r.buffer r.fields)
  | inr (inr k) ↦ dispatch_unknown c (some s) r t e k ∙ ground arith
]

-- For a payload of a command character, a comma and a text of 1 to 47 bytes without a NUL and with
-- fewer than four commas, the parser with its static buffer and its pointers gives the reading of the
-- pieces between the commas; with fewer than four pieces only if `vsnprintf_P` returns when it is given
-- NULL for `%s`, and else the parser does not return.
pub parse_command-read :
    (c : Stdlib) (k : ℕ) (s : Bytes) (t : LedType) (e : ℕ)
    → 0 < length s
    → length s < 48
    → commas s < max_field_count
    → HasNoNul s
    → parse_command c (some (k ∷ b',' ∷ s)) t e ≡ (
        if log_returns c (length (split s) == max_field_count)
        then some (read_command c k t (split s) e)
        else none)
parse_command-read c k s t e h l m n =
    let (r, parsed, command, pieces) = parse_command_string-split k s h l m n in
    let input = k ∷ b',' ∷ s in
    let counted : count r ≡ length (split s) =
      sym (length-map (c_string r.buffer) r.fields) ∙ ap length pieces in
    parse_command-logged c input r t e parsed
    ∙ rw (dispatch-read c input r t e, counted, command, pieces) refl

pub parse_command-read_logged :
    (c : Stdlib) (k : ℕ) (s : Bytes) (t : LedType) (e : ℕ)
    → c.prints_null ≡ true
    → 0 < length s
    → length s < 48
    → commas s < max_field_count
    → HasNoNul s
    → parse_command c (some (k ∷ b',' ∷ s)) t e ≡ some (read_command c k t (split s) e)
parse_command-read_logged c k s t e prints h l m n =
    parse_command-read c k s t e h l m n ∙ ground (arith, prints)
