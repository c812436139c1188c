-- ===== src/Kitchen/Parsing/Errno.antt =====
-- The conversions of Parsing.cpp when `errno` is already set.
use smarthouse_arduino.Base.{
  ℕ, ◌≡◌, ◌≢◌, sym, subst, ◌∙◌, inl, inr, Bool, false, Option, none, some, [], ◌∷◌, ◌++◌, arith,
  some_inj,
}
use smarthouse_arduino.Kitchen.Types.{Rgbw, LedType, color, white, Transition}
use smarthouse_arduino.Kitchen.Parsing.{
  Bytes, c_string, Stdlib, no_command, limit, Record, Parsed, hex_to_byte, string_to_white,
}
use smarthouse_arduino.Kitchen.Parsing.Dispatch.{
  command_cases, dispatch_limit, dispatch_transition, dispatch_unknown,
}
use smarthouse_arduino.Kitchen.Parsing.Command.{
  string_to_rgb, string_to_rgbw, parse_cmd_set_limit, parse_cmd_transition, Outcome, field,
  finish_limit, finish_transition, parse_command, parse_command-dispatch,
}

-- The C library never stores a zero in `errno`.
abbrev pub NeverClears : Stdlib → Type 0
NeverClears c =
    (str : Bytes) (base : ℕ)
    → (c.strtol str base).error ≢ some 0 × ((c.strtoul str base).error ≢ some 0)

-- A conversion that runs with `errno` set fails and leaves it set.
record IsPoisoned (A : Type 0) (p : Parsed A) : Type 0 where
  bad : p.good ≡ false
  still : p.errno ≢ 0

module _ (c : Stdlib) (keep : NeverClears c) (e : ℕ) (set : e ≢ 0) where
  hex_to_byte-IsPoisoned : (str : Bytes) → IsPoisoned ℕ (hex_to_byte c str e)
  unfolding hex_to_byte
  hex_to_byte-IsPoisoned str = ground (arith, keep str 16)

  string_to_white-IsPoisoned :
      (str : Bytes) (x : Rgbw) → IsPoisoned Rgbw (string_to_white c str x e)
  unfolding string_to_white
  string_to_white-IsPoisoned str x = ground (arith, hex_to_byte-IsPoisoned str)

  string_to_rgb-IsPoisoned : (str : Bytes) → IsPoisoned Rgbw (string_to_rgb c (some str) e)
  unfolding string_to_rgb
  string_to_rgb-IsPoisoned str = ground (arith, hex_to_byte-IsPoisoned (c_string (str ++ 0 ∷ []) 4))

  string_to_rgbw-IsPoisoned :
      (t : LedType) (str : Bytes) (x : Rgbw) → IsPoisoned Rgbw (string_to_rgbw c t str x e)
  unfolding string_to_rgbw
  string_to_rgbw-IsPoisoned color str x = string_to_rgb-IsPoisoned str
  string_to_rgbw-IsPoisoned white str x = string_to_white-IsPoisoned str x

  set_limit-IsPoisoned :
      (r : Record) (t : LedType) (x : Rgbw) → IsPoisoned Rgbw (parse_cmd_set_limit c r t x e)
  unfolding parse_cmd_set_limit
  set_limit-IsPoisoned r t x = ground (arith, string_to_rgbw-IsPoisoned t (field r 0) x)

  transition-IsPoisoned :
      (r : Record) (t : LedType) (x : Transition)
      → IsPoisoned Transition (parse_cmd_transition c r t x e)
  unfolding parse_cmd_transition
  transition-IsPoisoned r t x = ground (arith, string_to_rgbw-IsPoisoned t (field r 0) x.start)

abbrev IsRejected : Outcome → Type 0
IsRejected o = (o.0 ≡ no_command) × (o.1 ≢ 0)

finish_limit-IsRejected :
    (k : ℕ) (p : Parsed Rgbw) → IsPoisoned Rgbw p → IsRejected (finish_limit k p)
finish_limit-IsRejected k p h = ground arith

finish_transition-IsRejected :
    (k : ℕ) (b : Bool) (p : Parsed Transition)
    → IsPoisoned Transition p
    → IsRejected (finish_transition k b p)
finish_transition-IsRejected k b p h = ground arith

unknown-IsRejected :
    (e : ℕ) {o : Outcome} (payload : Option Bytes)
    → e ≢ 0
    → elim payload [ none ↦ none | some _ ↦ some (no_command, e) ] ≡ some o
    → IsRejected o
unknown-IsRejected e none p h = cc
unknown-IsRejected e (some s) p h = ground arith

-- If the C library never sets `errno` to 0 and `errno` is not 0, then a run of the parser that returns
-- gives the empty command and leaves `errno` other than 0, whatever the payload.
pub parse_command_poisoned :
    (c : Stdlib) (payload : Option Bytes) (t : LedType) (e : ℕ) {o : Outcome}
    → NeverClears c
    → e ≢ 0
    → parse_command c payload t e ≡ some o
    → (o.0 ≡ no_command) × (o.1 ≢ 0)
parse_command_poisoned c payload t e {o} keep p h =
    let (r, got, ran) = parse_command-dispatch c payload t e o h in
    elim (command_cases r.command) [
      | inl k ↦ subst IsRejected (some_inj (sym (dispatch_limit c payload r t e k) ∙ ran)) (
          finish_limit-IsRejected r.command _
            (set_limit-IsPoisoned c keep e p r t (limit no_command)))
      | inr (inl (b, k)) ↦
          subst IsRejected (some_inj (sym (dispatch_transition c payload r t e b k) ∙ ran)) (
            finish_transition-IsRejected r.command b _
              (transition-IsPoisoned c keep e p r t no_command.transition))
      | inr (inr k) ↦
          unknown-IsRejected e payload p (sym (dispatch_unknown c payload r t e k) ∙ ran)
    ]
