-- ===== src/Kitchen/Parsing/Reject.antt =====
-- What `parse_command` can return, and what a left-over `errno` does to it.
use smarthouse_arduino.Base.{
  ℕ, ◌<◌, ◌≡◌, ◌⊎◌, refl, sym, subst, ◌∙◌, inl, inr, Bool, true, false, Option, none, some, arith,
  Bool-cases, some_inj,
}
use smarthouse_arduino.Kitchen.Types.{
  IsByteColor, light_set_ext_limit, light_set_button_limit, transition_one_shot, transition_loop,
  Rgbw, LedType, color, white, Transition,
}
use smarthouse_arduino.Kitchen.Parsing.{
  Bytes, hex_to_byte, Stdlib, CommandData, no_command, limit, Record, Parsed, string_to_ulong,
  min_interval,
}
use smarthouse_arduino.Kitchen.Parsing.Dispatch.{
  command_cases, dispatch_limit, dispatch_transition, dispatch_unknown,
}
use smarthouse_arduino.Kitchen.Parsing.Command.{
  string_to_rgbw, parse_cmd_set_limit, parse_cmd_transition, Outcome, field, finish_limit,
  finish_transition, dispatch_command, parse_command, parse_command-dispatch,
}

-- A result whose command is set: which command, and what its arguments satisfy.
pub data IsWellFormed (d : CommandData) : Type 0 where
  limit_command :
      (d.command ≡ light_set_ext_limit) ⊎ (d.command ≡ light_set_button_limit)
      → IsByteColor d.transition.start
      → IsWellFormed d
  transition_command :
      ((d.command ≡ transition_one_shot) × (d.transition.is_loop ≡ false))
        ⊎ ((d.command ≡ transition_loop) × (d.transition.is_loop ≡ true))
      → IsByteColor d.transition.start
      → IsByteColor d.transition.stop
      → min_interval < d.transition.time
      → IsWellFormed d

string_to_rgbw-good :
    (c : Stdlib) (t : LedType) (str : Bytes) (x : Rgbw) (e : ℕ)
    → (string_to_rgbw c t str x e).good ≡ true
    → IsByteColor (string_to_rgbw c t str x e).value × ((string_to_rgbw c t str x e).errno ≡ 0)
unfolding string_to_rgbw hex_to_byte
string_to_rgbw-good c color str x e h = ground arith
string_to_rgbw-good c white str x e h = ground arith

parse_cmd_set_limit-good :
    (c : Stdlib) (r : Record) (t : LedType) (x : Rgbw) (e : ℕ)
    → (parse_cmd_set_limit c r t x e).good ≡ true
    → IsByteColor (parse_cmd_set_limit c r t x e).value
      × ((parse_cmd_set_limit c r t x e).errno ≡ 0)
unfolding parse_cmd_set_limit
parse_cmd_set_limit-good c r t x e h = ground (arith, string_to_rgbw-good c t (field r 0) x e)

-- What a transition that is accepted satisfies.
record IsTimed (p : Parsed Transition) : Type 0 where
  start_bytes : IsByteColor p.value.start
  stop_bytes : IsByteColor p.value.stop
  long_enough : min_interval < p.value.time
  clear : p.errno ≡ 0

string_to_ulong-good :
    (c : Stdlib) (str : Bytes) (e : ℕ)
    → (string_to_ulong c str e).good ≡ true
    → (string_to_ulong c str e).errno ≡ 0
unfolding string_to_ulong
string_to_ulong-good c str e h = ground arith

parse_cmd_transition-good :
    (c : Stdlib) (r : Record) (t : LedType) (x : Transition) (e : ℕ)
    → (parse_cmd_transition c r t x e).good ≡ true
    → IsTimed (parse_cmd_transition c r t x e)
unfolding parse_cmd_transition
parse_cmd_transition-good c r t x e h =
    let start = string_to_rgbw c t (field r 0) x.start e in
    let stop = string_to_rgbw c t (field r 1) x.stop start.errno in
    ground (
      arith,
      string_to_rgbw-good c t (field r 0) x.start e,
      string_to_rgbw-good c t (field r 1) x.stop start.errno,
      string_to_ulong-good c (field r 2) stop.errno,
    )

-- The shapes of a result.
abbrev IsResult : Outcome → Type 0
IsResult o = (o.0 ≡ no_command) ⊎ (IsWellFormed o.0 × (o.1 ≡ 0))

finish_limit-IsResult :
    (k : ℕ) (p : Parsed Rgbw)
    → (k ≡ light_set_ext_limit) ⊎ (k ≡ light_set_button_limit)
    → (p.good ≡ true → IsByteColor p.value × (p.errno ≡ 0))
    → IsResult (finish_limit k p)
finish_limit-IsResult k p hk h = elim (Bool-cases p.good) [
  | inl yes' ↦ rw yes' (inr (limit_command hk (h yes').0, (h yes').1))
  | inr no' ↦ rw no' (inl refl)
]

finish_transition-IsResult :
    (k : ℕ) (b : Bool) (p : Parsed Transition)
    → ((k ≡ transition_one_shot) × (b ≡ false)) ⊎ ((k ≡ transition_loop) × (b ≡ true))
    → (p.good ≡ true → IsTimed p)
    → IsResult (finish_transition k b p)
finish_transition-IsResult k b p hk h = elim (Bool-cases p.good) [
  | inl yes' ↦
      let t = h yes' in
      rw yes' (inr (transition_command hk t.start_bytes t.stop_bytes t.long_enough, t.clear))
  | inr no' ↦ rw no' (inl refl)
]

unknown-empty :
    (e : ℕ) {o : Outcome} (payload : Option Bytes)
    → elim payload [ none ↦ none | some _ ↦ some (no_command, e) ] ≡ some o
    → o.0 ≡ no_command
unknown-empty e none h = cc
unknown-empty e (some s) h = ground arith

dispatch_command-IsResult :
    (c : Stdlib) (payload : Option Bytes) (r : Record) (t : LedType) (e : ℕ) (o : Outcome)
    → dispatch_command c payload r t e ≡ some o
    → IsResult o
dispatch_command-IsResult c payload r t e o h = elim (command_cases r.command) [
  | inl k ↦
      subst IsResult (some_inj (sym (dispatch_limit c payload r t e k) ∙ h))
        (finish_limit-IsResult r.command _ k (parse_cmd_set_limit-good c r t (limit no_command) e))
  | inr (inl (b, k)) ↦
      subst IsResult (some_inj (sym (dispatch_transition c payload r t e b k) ∙ h)) (
        finish_transition-IsResult r.command b _ k
          (parse_cmd_transition-good c r t no_command.transition e))
  | inr (inr k) ↦ inl (unknown-empty e payload (sym (dispatch_unknown c payload r t e k) ∙ h))
]

-- A run of the parser that returns gives the empty command, or a well-formed one with `errno` 0: a
-- limit of byte colours, or a transition of byte colours with its loop flag and a time above the
-- minimum.
pub parse_command-IsWellFormed :
    (c : Stdlib) (payload : Option Bytes) (t : LedType) (e e' : ℕ) (d : CommandData)
    → parse_command c payload t e ≡ some (d, e')
    → (d ≡ no_command) ⊎ (IsWellFormed d × (e' ≡ 0))
parse_command-IsWellFormed c payload t e e' d h =
    let (r, got, ran) = parse_command-dispatch c payload t e (d, e') h in
    dispatch_command-IsResult c payload r t e (d, e') ran
