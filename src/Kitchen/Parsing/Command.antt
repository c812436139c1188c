-- ===== src/Kitchen/Parsing/Command.antt =====
-- sketches/Kitchen/Parsing.cpp, from `string_to_rgb` on: colours, the commands and their arguments.
use smarthouse_arduino.Base.{
  ℕ, ◌≡◌, refl, inl, inr, Bool-cases, Option-cases, arith, Bool, true, false, not, Option, none,
  some, [], ◌∷◌, ◌++◌, leb, ◌==◌, ◌||◌, if◌then◌else◌, length, get_or, set,
}
use smarthouse_arduino.Kitchen.Types.{
  light_set_ext_limit, light_set_button_limit, transition_one_shot, transition_loop, Rgbw, LedType,
  color, white, Transition, no_color,
}
use smarthouse_arduino.Kitchen.Parsing.{
  Bytes, Stdlib, CommandData, no_command, limit, Record, count, Parsed, c_string, hex_to_byte,
  string_to_white, string_to_ulong, parse_command_string, min_interval, max_field_count,
}

-- Each hexadecimal pair is read up to the NUL that the previous step wrote into the local buffer.
-- `B` is read first and `R` last; a failure keeps what was read so far.
unfoldable pub string_to_rgb : Stdlib → Option Bytes → ℕ → Parsed Rgbw
string_to_rgb c none errno = record { good = false; value = no_color; errno = errno }
string_to_rgb c (some str) errno =
    let buffer : Bytes = str ++ 0 ∷ [] in
    let blue = hex_to_byte c (c_string buffer 4) errno in
    let green = hex_to_byte c (c_string (set buffer 4 0) 2) blue.errno in
    let red = hex_to_byte c (c_string (set (set buffer 4 0) 2 0) 0) green.errno in
    if not (length str == 6)
    then record { good = false; value = no_color; errno = errno }
    else if not blue.good
    then record { good = false; value = record no_color { b = blue.value }; errno = blue.errno }
    else if not green.good
    then record {
      good = false;
      value = record no_color { b = blue.value; g = green.value };
      errno = green.errno;
    }
    else record {
      good = red.good;
      value = record { r = red.value; g = green.value; b = blue.value; w = 0 };
      errno = red.errno;
    }

-- The field of a type is read as a colour or as a white level.
unfoldable pub string_to_rgbw : Stdlib → LedType → Bytes → Rgbw → ℕ → Parsed Rgbw
unfolding string_to_rgb string_to_white
string_to_rgbw c color str result errno = string_to_rgb c (some str) errno
string_to_rgbw c white str result errno = string_to_white c str result errno

-- The string of `fields[k]`, for k < count.
abbrev pub field : Record → ℕ → Bytes
field r k = c_string r.buffer (get_or r.fields k 0)

unfoldable pub parse_cmd_set_limit : Stdlib → Record → LedType → Rgbw → ℕ → Parsed Rgbw
parse_cmd_set_limit c r type result errno =
    if not (count r == 1)
    then record { good = false; value = result; errno = errno }
    else string_to_rgbw c type (field r 0) result errno

-- The two colours and the time, in order; the first failure ends it.
unfoldable pub parse_cmd_transition : Stdlib → Record → LedType → Transition → ℕ → Parsed Transition
parse_cmd_transition c r type transition errno =
    let start = string_to_rgbw c type (field r 0) transition.start errno in
    let started = record transition { start = start.value } in
    let stop = string_to_rgbw c type (field r 1) transition.stop start.errno in
    let stopped = record started { stop = stop.value } in
    let time = string_to_ulong c (field r 2) stop.errno in
    let timed = record stopped { time = time.value } in
    if not (count r == 3)
    then record { good = false; value = transition; errno = errno }
    else if not start.good
    then record { good = false; value = started; errno = start.errno }
    else if not stop.good
    then record { good = false; value = stopped; errno = stop.errno }
    else if not time.good
    then record { good = false; value = timed; errno = time.errno }
    else record { good = not (leb time.value min_interval); value = timed; errno = time.errno }

-- The result of a command and the `errno` left behind.
abbrev pub Outcome : Type 0
Outcome = CommandData × ℕ

abbrev pub finish_limit : ℕ → Parsed Rgbw → Outcome
finish_limit k p = (
  if p.good
      then record {
        command = k;
        transition = record { start = p.value; stop = no_color; time = 0; is_loop = false };
      }
      else no_command,
  p.errno,
)

abbrev pub finish_transition : ℕ → Bool → Parsed Transition → Outcome
finish_transition k is_loop p = (
  if p.good
      then record { command = k; transition = record p.value { is_loop = is_loop } }
      else no_command,
  p.errno,
)

-- The `switch` of `parse_command`. Its default case logs the first byte of the payload, which reads
-- through the pointer: `none` stands for a read through NULL.
unfoldable pub dispatch_command : Stdlib → Option Bytes → Record → LedType → ℕ → Option Outcome
dispatch_command c payload r type errno =
    let k = r.command in
    let empty = no_command.transition in
    if k == light_set_ext_limit || k == light_set_button_limit
    then some (finish_limit k (parse_cmd_set_limit c r type (limit no_command) errno))
    else if k == transition_one_shot
    then some (finish_transition k false (parse_cmd_transition c r type empty errno))
    else if k == transition_loop
    then some (finish_transition k true (parse_cmd_transition c r type empty errno))
    else elim payload [ none ↦ none | some _ ↦ some (no_command, errno) ]

-- Whether a call of `log` returns, by whether all that it is given for `%s` are strings.
abbrev pub log_returns : Stdlib → Bool → Bool
log_returns c strings = strings || c.prints_null

abbrev pub is_given : Option Bytes → Bool
is_given none = false
is_given (some _) = true

-- The payload is logged, then what it is split into, with all four slots of `fields`, of which those
-- behind `count` are NULL. `none` is a run that leaves the language: a write behind `fields`, or a read
-- through NULL, also by `vsnprintf_P`.
unfoldable pub parse_command : Stdlib → Option Bytes → LedType → ℕ → Option Outcome
parse_command c payload type errno = elim (log_returns c (is_given payload)) [
  | false ↦ none
  | true ↦ elim (parse_command_string payload) [
    | none ↦ none
    | some r ↦ elim (log_returns c (count r == max_field_count)) [
      | false ↦ none
      | true ↦ dispatch_command c payload r type errno
    ]
  ]
]

-- A run of the parser that returns is one of its `switch`.
pub parse_command-dispatch :
    (c : Stdlib) (payload : Option Bytes) (t : LedType) (e : ℕ) (o : Outcome)
    → parse_command c payload t e ≡ some o
    → (r : Record) × (parse_command_string payload ≡ some r)
      × (dispatch_command c payload r t e ≡ some o)
unfolding parse_command
parse_command-dispatch c payload t e o h = elim (Option-cases (parse_command_string payload)) [
  | inl out ↦ absurd (ground (arith, h, out))
  | inr (r, got) ↦ (r, got, ground (arith, h, got))
]

pub parse_command-logged :
    (c : Stdlib) (input : Bytes) (r : Record) (t : LedType) (e : ℕ)
    → parse_command_string (some input) ≡ some r
    → parse_command c (some input) t e ≡ (
        if log_returns c (count r == max_field_count)
        then dispatch_command c (some input) r t e
        else none)
unfolding parse_command
parse_command-logged c input r t e got =
    rw (parse_command, got)
      (elim (Bool-cases (log_returns c (count r == max_field_count))) [
        | inl shown ↦ rw shown refl
        | inr silent ↦ rw silent refl
      ])
