-- ===== src/Kitchen/Parsing/Dispatch.antt =====
-- The switch of `parse_command`, case by case.
use smarthouse_arduino.Base.{
  ℕ, ◌≡◌, ◌≢◌, ◌⊎◌, Bool, true, false, Option, none, some, arith, ℕ_discrete, inl, inr, refl,
}
use smarthouse_arduino.Kitchen.Types.{
  light_set_ext_limit, light_set_button_limit, transition_one_shot, transition_loop, LedType,
}
use smarthouse_arduino.Kitchen.Parsing.{Bytes, Stdlib, no_command, limit, Record}
use smarthouse_arduino.Kitchen.Parsing.Command.{
  parse_cmd_set_limit, parse_cmd_transition, finish_limit, finish_transition, dispatch_command,
}

-- Commands `0` and `1`; commands `2` and `3` with their loop flag.
abbrev pub IsLimit : ℕ → Type 0
IsLimit k = (k ≡ light_set_ext_limit) ⊎ (k ≡ light_set_button_limit)

abbrev pub IsTransition : ℕ → Bool → Type 0
IsTransition k is_loop =
    ((k ≡ transition_one_shot) × (is_loop ≡ false)) ⊎ ((k ≡ transition_loop) × (is_loop ≡ true))

abbrev pub IsUnknown : ℕ → Type 0
IsUnknown k =
    (k ≢ light_set_ext_limit)
    × (k ≢ light_set_button_limit)
    × (k ≢ transition_one_shot)
    × (k ≢ transition_loop)

pub command_cases : (k : ℕ) → IsLimit k ⊎ ((b : Bool) × IsTransition k b) ⊎ IsUnknown k
command_cases k = elim (ℕ_discrete k light_set_ext_limit) [
  | yes e ↦ inl (inl e)
  | no a ↦ elim (ℕ_discrete k light_set_button_limit) [
    | yes e ↦ inl (inr e)
    | no b ↦ elim (ℕ_discrete k transition_one_shot) [
      | yes e ↦ inr (inl (false, inl (e, refl)))
      | no c ↦ elim (ℕ_discrete k transition_loop) [
        | yes e ↦ inr (inl (true, inr (e, refl)))
        | no d ↦ inr (inr (a, b, c, d))
      ]
    ]
  ]
]

module _ (c : Stdlib) (payload : Option Bytes) (r : Record) (t : LedType) (e : ℕ) where
  pub dispatch_limit :
      IsLimit r.command
      → dispatch_command c payload r t e
        ≡ some (finish_limit r.command (parse_cmd_set_limit c r t (limit no_command) e))
  unfolding dispatch_command
  dispatch_limit h = ground arith

  pub dispatch_transition :
      (is_loop : Bool)
      → IsTransition r.command is_loop
      → dispatch_command c payload r t e
        ≡ some (
            finish_transition r.command is_loop
              (parse_cmd_transition c r t no_command.transition e))
  unfolding dispatch_command
  dispatch_transition is_loop h = ground arith

  pub dispatch_unknown :
      IsUnknown r.command
      → dispatch_command c payload r t e
        ≡ elim payload [ none ↦ none | some _ ↦ some (no_command, e) ]
  unfolding dispatch_command
  dispatch_unknown h = ground arith
