-- ===== src/Kitchen/Invariant.antt =====
-- What every operation of the Kitchen sketch keeps holds after any history.
use smarthouse_arduino.Base.{
  ℕ, ◌≡◌, ◌⊎◌, sym, subst, ◌∙◌, inl, inr, Bool, Option, some, List, arith, Option-cases, some_inj,
}
use smarthouse_arduino.Kitchen.Board.{Board}
use smarthouse_arduino.Kitchen.History.{Event, run, run-invariant, step-invariant}
use smarthouse_arduino.Kitchen.Networking.{
  Incoming, on_message_set_limit, on_message_set_transition, on_message_light, on_command,
  run_command, on_message_var1, receive,
}
use smarthouse_arduino.Kitchen.Parsing.{Bytes, Stdlib, CommandData, no_command, limit}
use smarthouse_arduino.Kitchen.Parsing.Command.{parse_command}
use smarthouse_arduino.Kitchen.Parsing.Reject.{
  IsWellFormed, limit_command, transition_command, parse_command-IsWellFormed,
}
use smarthouse_arduino.Kitchen.Sketch.{Callback, loop}
use smarthouse_arduino.Kitchen.State.{Kitchen}
use smarthouse_arduino.Kitchen.Types.{
  Rgbw, LedType, color, white, SwitchingSource, external, button, Transition, IsByteColor,
}
use smarthouse_arduino.NewButton.{NewButton}

-- The handlers of messages and the passes of the main loop keep `P`; the parser only gives colours of
-- bytes.
pub record IsKept (b : Board) (P : Kitchen b → Type 0) : Type 0 where
  pub clock : (now : ℕ) (s : Kitchen b) → P s → P (record s { clock = now })
  pub errno : (e : ℕ) (s : Kitchen b) → P s → P (record s { errno = e })
  pub light : (m : Incoming) (s : Kitchen b) → P s → P (on_message_light b m s)
  pub set_limit :
      (sensor : ℕ) (c : Rgbw) (source : SwitchingSource) (s : Kitchen b)
      → IsByteColor c
      → P s
      → P (on_message_set_limit b sensor c source s)
  pub set_transition :
      (sensor : ℕ) (x : Transition) (s : Kitchen b)
      → IsByteColor x.start
      → IsByteColor x.stop
      → P s
      → P (on_message_set_transition b sensor x s)
  pub pass :
      (level : Bool) (now later : ℕ) (btn : NewButton Callback) (s : Kitchen b)
      → P s
      → P (loop b level now later (btn, s)).1

module _ (b : Board) (P : Kitchen b → Type 0) (kept : IsKept b P) where
  command-IsKept :
      (sensor : ℕ) (d : CommandData) (e : ℕ) (s : Kitchen b)
      → (d ≡ no_command) ⊎ (IsWellFormed d × (e ≡ 0))
      → P s
      → P (on_command b sensor d s)
  unfolding on_command
  command-IsKept sensor d e s (inl none') i = rw none' i
  command-IsKept sensor d e s (inr (limit_command k bytes, _)) i = ground (
    arith,
    kept.set_limit sensor (limit d) external s bytes i,
    kept.set_limit sensor (limit d) button s bytes i,
  )
  command-IsKept sensor d e s (inr (transition_command k h h' _, _)) i =
      ground (arith, kept.set_transition sensor d.transition s h h' i)

  run_command-IsKept :
      (c : Stdlib) (sensor : ℕ) (payload : Option Bytes) (t : LedType) (s s' : Kitchen b)
      → P s
      → run_command b c sensor payload t s ≡ some s'
      → P s'
  unfolding run_command
  run_command-IsKept c sensor payload t s s' i h =
      elim (Option-cases (parse_command c payload t s.errno)) [
        | inl fault ↦ cc (fault, h)
        | inr ((d, e), parsed) ↦ subst P (some_inj (sym (rw (parsed, run_command)) ∙ h)) (
            command-IsKept sensor d e (record s { errno = e })
              (parse_command-IsWellFormed c payload t s.errno e d parsed) (kept.errno e s i))
      ]

  receive-IsKept :
      (c : Stdlib) (m : Incoming) (s s' : Kitchen b) → P s → receive b c m s ≡ some s' → P s'
  unfolding receive on_message_var1
  receive-IsKept c m s s' i h = ground (
    arith,
    kept.light m s i,
    run_command-IsKept c m.sensor m.string color s s' i,
    run_command-IsKept c m.sensor m.string white s s' i,
  )

  -- It holds after any history that the parser survives, if it holds before.
  pub history-IsKept :
      (c : Stdlib) (es : List Event) (btn btn' : NewButton Callback) (s s' : Kitchen b)
      → P s
      → run b c es (btn, s) ≡ some (btn', s')
      → P s'
  history-IsKept c es btn btn' s s' i h =
      run-invariant b (λ d. P d.1) c
        (step-invariant b P c (λ x now i'. kept.clock now x i') (receive-IsKept c)
          (λ level now later k x i'. kept.pass level now later k x i'))
        es (btn, s) (btn', s') i h
