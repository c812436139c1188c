-- ===== src/Kitchen/Parsing/Accept.antt =====
-- `parse_command` on the texts of limit and transition commands.
use smarthouse_arduino.Base.{
  ℕ, ◌-◌, ◌^◌, ◌≤◌, ◌<◌, ◌≡◌, ◌≢◌, ap, ◌∙◌, Bool, true, false, Option, some, [], ◌∷◌, arith, length,
}
use smarthouse_arduino.Kitchen.Types.{IsByteColor, Rgbw, LedType, no_color}
use smarthouse_arduino.Kitchen.Parsing.{Bytes, Stdlib, no_command, string_to_ulong, min_interval}
use smarthouse_arduino.Kitchen.Parsing.Command.{finish_limit, Outcome, parse_command}
use smarthouse_arduino.Kitchen.Parsing.Dispatch.{IsLimit, IsTransition}
use smarthouse_arduino.Kitchen.Parsing.Refine.{parse_command-read_logged}
use smarthouse_arduino.Kitchen.Parsing.Errno.{parse_command_poisoned}
use smarthouse_arduino.Kitchen.Parsing.Text.{
  IsDocumented, decimal_from, IsDigits, erange, color_text, shown, split-IsPlain, commas-IsPlain,
  HasNoNul-IsPlain, color_text-IsPlain, string_to_rgbw-color_text,
}
use smarthouse_arduino.Kitchen.Parsing.Payloads.{
  limit_payload, transition_payload, length-color_text, read_command_limit, transition_payload-read,
  read_transition_well,
}

-- With a C library that behaves as documented and prints something for a NULL string, and errno 0, the
-- text of a limit of byte colours is accepted with its colour, for both commands and both kinds of LED.
pub parse_command-limit :
    (c : Stdlib) (k : ℕ) (t : LedType) (x : Rgbw)
    → IsDocumented c
    → IsLimit k
    → IsByteColor x
    → parse_command c (some (limit_payload k t x)) t 0
      ≡ some (
        record {
          command = k;
          transition = record { start = shown t x; stop = no_color; time = 0; is_loop = false };
        },
        0,
      )
parse_command-limit c k t x doc hk b =
    let plain = color_text-IsPlain t x b in
    parse_command-read_logged c k (color_text t x) t 0 doc.null_prints (length-color_text t x).0
      (omega (arith, length-color_text t x)) (omega (arith, commas-IsPlain (color_text t x) plain))
      (HasNoNul-IsPlain _ plain)
    ∙ rw (split-IsPlain (color_text t x) plain) (
        ap some (
          read_command_limit c k t (color_text t x ∷ []) 0 hk
          ∙ ap (finish_limit k) (string_to_rgbw-color_text c t x no_color doc b)))

digit_of_pos : (ds : Bytes) → 0 < decimal_from 0 ds → 0 < length ds
digit_of_pos [] h = h
digit_of_pos (c ∷ cs) h = omega arith

time_fits :
    (c : Stdlib) (ds : Bytes)
    → IsDocumented c
    → 0 < length ds
    → IsDigits ds
    → decimal_from 0 ds < 2 ^ 32
    → string_to_ulong c ds 0 ≡ record { good = true; value = decimal_from 0 ds; errno = 0 }
unfolding string_to_ulong
time_fits c ds doc h d l = rw (doc.fits ds h d l)

time_overflows :
    (c : Stdlib) (ds : Bytes)
    → IsDocumented c
    → 0 < length ds
    → IsDigits ds
    → 2 ^ 32 ≤ decimal_from 0 ds
    → string_to_ulong c ds 0 ≡ record { good = false; value = 2 ^ 32 - 1; errno = erange }
unfolding string_to_ulong
time_overflows c ds doc h d l = rw (doc.overflows ds h d l)

-- With a C library that behaves as documented and prints something for a NULL string, and errno 0, the
-- text of a transition of byte colours is accepted with its two colours, its time and its loop flag, if
-- the time has fewer than 34 digits, is above the minimum and fits 32 bits.
pub parse_command-transition :
    (c : Stdlib) (k : ℕ) (is_loop : Bool) (t : LedType) (x y : Rgbw) (ds : Bytes)
    → IsDocumented c
    → IsTransition k is_loop
    → IsByteColor x
    → IsByteColor y
    → IsDigits ds
    → length ds < 34
    → min_interval < decimal_from 0 ds
    → decimal_from 0 ds < 2 ^ 32
    → parse_command c (some (transition_payload k t x y ds)) t 0
      ≡ some (
        record {
          command = k;
          transition = record {
            start = shown t x;
            stop = shown t y;
            time = decimal_from 0 ds;
            is_loop = is_loop;
          };
        },
        0,
      )
parse_command-transition c k is_loop t x y ds doc hk bx by d short long fits =
    transition_payload-read c k t x y ds doc bx by d short is_loop hk
    ∙ rw
        (
          read_transition_well c t x y ds doc bx by,
          time_fits c ds doc (digit_of_pos ds (omega arith)) d fits,
        )
        (ground arith)

-- With a C library that behaves as documented and prints something for a NULL string, and errno 0, the
-- text of a transition of byte colours whose time has fewer than 34 digits and does not fit 32 bits is
-- rejected with `errno` set; a payload that is parsed next, and on which the parser returns, is rejected
-- too and leaves `errno` other than 0.
pub overflow_disables_parser :
    (c : Stdlib) (k : ℕ) (is_loop : Bool) (t : LedType) (x y : Rgbw) (ds : Bytes)
    → IsDocumented c
    → IsTransition k is_loop
    → IsByteColor x
    → IsByteColor y
    → IsDigits ds
    → length ds < 34
    → 2 ^ 32 ≤ decimal_from 0 ds
    → (later : Option Bytes) (t' : LedType) (o : Outcome) → parse_command c later t' erange ≡ some o
    → (parse_command c (some (transition_payload k t x y ds)) t 0 ≡ some (no_command, erange))
      × (o.0 ≡ no_command)
      × (o.1 ≢ 0)
overflow_disables_parser c k is_loop t x y ds doc hk bx by d short over later t' o h =
    let pos = digit_of_pos ds (omega arith) in
    let rejected = parse_command_poisoned c later t' erange doc.never_clears (omega arith) h in
    (
      transition_payload-read c k t x y ds doc bx by d short is_loop hk
          ∙ rw (read_transition_well c t x y ds doc bx by, time_overflows c ds doc pos d over),
      rejected.0,
      rejected.1,
    )
