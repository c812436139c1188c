-- ===== src/Kitchen/History.antt =====
-- What happens to the sketch after `setup`: radio messages and passes of the main loop, in any order.
use smarthouse_arduino.Base.{
  ℕ, ◌≡◌, sym, subst, ◌∙◌, inl, inr, Bool, Option, none, some, List, [], ◌∷◌, Option-cases,
  some_inj,
}
use smarthouse_arduino.Kitchen.Board.{Board}
use smarthouse_arduino.Kitchen.Networking.{Incoming, receive}
use smarthouse_arduino.Kitchen.Parsing.{Stdlib}
use smarthouse_arduino.Kitchen.Sketch.{Callback, loop}
use smarthouse_arduino.Kitchen.State.{Kitchen}
use smarthouse_arduino.NewButton.{NewButton}

-- A message with the reading of millis() in its handlers; a pass with the pin's level and its readings.
pub data Event : Type 0 where
  message : ℕ → Incoming → Event
  pass : Bool → ℕ → ℕ → Event

module _ (b : Board) where
  abbrev pub Device : Type 0
  Device = NewButton Callback × Kitchen b

  unfoldable pub step : Stdlib → Event → Device → Option Device
  step c (message now m) (btn, s) = elim (receive b c m (record s { clock = now })) [
    | none ↦ none
    | some s' ↦ some (btn, s')
  ]
  step c (pass status now later) d = some (loop b status now later d)

  -- `none` if a message makes the parser leave the language.
  unfoldable pub run : Stdlib → List Event → Device → Option Device
  run c [] d = some d
  run c (e ∷ es) d = elim (step c e d) [ none ↦ none | some d' ↦ run c es d' ]

  -- What every message and every pass keeps holds after any history.
  pub run-invariant :
      (P : Device → Type 0) (c : Stdlib)
      → ((e : Event) (d d' : Device) → P d → step c e d ≡ some d' → P d')
      → (es : List Event) (d d' : Device) → P d
      → run c es d ≡ some d'
      → P d'
  unfolding run
  run-invariant P c keep [] d d' h e = subst P (some_inj e) h
  run-invariant P c keep (x ∷ es) d d' h e = elim (Option-cases (step c x d)) [
    | inl stuck ↦ cc (stuck, e)
    | inr (d1, went) ↦ run-invariant P c keep es d1 d' (keep x d d1 h went) (rw (went, run) at e)
  ]

  -- The two kinds of event, for an invariant of the globals.
  pub step-invariant :
      (P : Kitchen b → Type 0) (c : Stdlib)
      → ((s : Kitchen b) (now : ℕ) → P s → P (record s { clock = now }))
      → ((m : Incoming) (s s' : Kitchen b) → P s → receive b c m s ≡ some s' → P s')
      → ((status : Bool) (now later : ℕ) (btn : NewButton Callback) (s : Kitchen b)
          → P s
          → P (loop b status now later (btn, s)).1)
      → (e : Event) (d d' : Device) → P d.1
      → step c e d ≡ some d'
      → P d'.1
  unfolding step
  step-invariant P c tick on_message on_pass (message now m) (btn, s) d' h e =
      elim (Option-cases (receive b c m (record s { clock = now }))) [
        | inl stuck ↦ cc (stuck, e)
        | inr (s', went) ↦
            let stepped : step c (message now m) (btn, s) ≡ some (btn, s') = rw (went, step) in
            subst (λ (d : Device). P d.1) (some_inj (sym stepped ∙ e))
              (on_message m (record s { clock = now }) s' (tick s now h) went)
      ]
  step-invariant P c tick on_message on_pass (pass status now later) (btn, s) d' h e =
      subst (λ (d : Device). P d.1) (some_inj e) (on_pass status now later btn s h)
