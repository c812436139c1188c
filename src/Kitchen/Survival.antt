-- ===== src/Kitchen/Survival.antt =====
-- Which messages make the Kitchen sketch leave the language.
use smarthouse_arduino.Base.{
  ℕ, ◌≡◌, ◌⊎◌, ◌↔◌, refl, ◌∙◌, inl, inr, Option, none, List, [], ◌∷◌, arith, Option-cases,
}
use smarthouse_arduino.Kitchen.Board.{Board}
use smarthouse_arduino.Kitchen.History.{Event, message, pass, Device, step, run}
use smarthouse_arduino.Kitchen.Networking.{Incoming, run_command, on_message_var1, receive}
use smarthouse_arduino.Kitchen.Parsing.{Bytes, Stdlib}
use smarthouse_arduino.Kitchen.Parsing.Command.{parse_command}
use smarthouse_arduino.Kitchen.Parsing.Fatal.{Faults, parse_command-none}
use smarthouse_arduino.Kitchen.Sketch.{loop}
use smarthouse_arduino.Kitchen.State.{Kitchen, v_var1, color_leds_id, white_led_id}
use smarthouse_arduino.Kitchen.Types.{LedType, color, white}

-- A V_VAR1 message to one of the LEDs with a payload on which the parser leaves the language.
abbrev pub IsFatal : Stdlib → Incoming → Type 0
IsFatal c m =
    (m.type ≡ v_var1) × ((m.sensor ≡ color_leds_id) ⊎ (m.sensor ≡ white_led_id)) × Faults c m.string

abbrev pub AnyFatal : Stdlib → List Event → Type 0
AnyFatal c [] = ⊥
AnyFatal c (message now m ∷ es) = IsFatal c m ⊎ AnyFatal c es
AnyFatal c (pass status now later ∷ es) = AnyFatal c es

module _ (b : Board) where
  run_command-none :
      (c : Stdlib) (sensor : ℕ) (payload : Option Bytes) (t : LedType) (s : Kitchen b)
      → (run_command b c sensor payload t s ≡ none) ↔ Faults c payload
  unfolding run_command
  run_command-none c sensor payload t s =
      let fatal = parse_command-none c payload t s.errno in
      elim (Option-cases (parse_command c payload t s.errno)) [
        | inl out ↦ ((λ h. fatal.0 out), λ q. rw (run_command, out) refl)
        | inr (o, got) ↦ (λ h. cc (rw (run_command, got) at h), λ q. cc (fatal.1 q, got))
      ]

  receive_cases :
      (c : Stdlib) (m : Incoming) (s : Kitchen b)
      → receive b c m s ≡ none
      → (m.type ≡ v_var1)
        × (((m.sensor ≡ color_leds_id) × (run_command b c m.sensor m.string color s ≡ none))
            ⊎ ((m.sensor ≡ white_led_id) × (run_command b c m.sensor m.string white s ≡ none)))
  unfolding receive on_message_var1
  receive_cases c m s h = ground (arith, h)

  receive_color :
      (c : Stdlib) (m : Incoming) (s : Kitchen b)
      → m.type ≡ v_var1
      → m.sensor ≡ color_leds_id
      → receive b c m s ≡ run_command b c m.sensor m.string color s
  unfolding receive on_message_var1
  receive_color c m s h k = ground (arith, h, k)

  receive_white :
      (c : Stdlib) (m : Incoming) (s : Kitchen b)
      → m.type ≡ v_var1
      → m.sensor ≡ white_led_id
      → receive b c m s ≡ run_command b c m.sensor m.string white s
  unfolding receive on_message_var1
  receive_white c m s h k = ground (arith, h, k)

  receive-none :
      (c : Stdlib) (m : Incoming) (s : Kitchen b) → (receive b c m s ≡ none) ↔ IsFatal c m
  receive-none c m s =
      let fatal = run_command-none c m.sensor m.string color s in
      let fatal' = run_command-none c m.sensor m.string white s in
      (
        λ h.
            let (type, died) = receive_cases c m s h in
            elim died [
              | inl (k, out) ↦ (type, inl k, fatal.0 out)
              | inr (k, out) ↦ (type, inr k, fatal'.0 out)
            ],
        λ q. elim q.1 [
          | inl k ↦ receive_color c m s q.0 k ∙ fatal.1 q.2
          | inr k ↦ receive_white c m s q.0 k ∙ fatal'.1 q.2
        ],
      )

  step-none :
      (c : Stdlib) (now : ℕ) (m : Incoming) (d : Device b)
      → (step b c (message now m) d ≡ none) ↔ IsFatal c m
  unfolding step
  step-none c now m (btn, s) =
      let fatal = receive-none c m (record s { clock = now }) in
      elim (Option-cases (receive b c m (record s { clock = now }))) [
        | inl out ↦ ((λ h. fatal.0 out), λ q. rw (step, out) refl)
        | inr (s', went) ↦ (λ h. cc (rw (step, went) at h), λ q. cc (fatal.1 q, went))
      ]

  -- A history leaves the language exactly if one of its messages is a V_VAR1 message to the colour or the
  -- white LEDs whose payload is NULL, has more than four fields, or has other than four while
  -- `vsnprintf_P` does not return when it is given NULL for `%s`. Any other history runs to its end.
  pub run-none :
      (c : Stdlib) (es : List Event) (d : Device b) → (run b c es d ≡ none) ↔ AnyFatal c es
  unfolding run step
  run-none c [] d = ((λ h. cc h), λ q. absurd q)
  run-none c (message now m ∷ es) d =
      let fatal = step-none c now m d in
      elim (Option-cases (step b c (message now m) d)) [
        | inl out ↦ ((λ h. inl (fatal.0 out)), λ q. rw (run, out) refl)
        | inr (d', went) ↦
            let later = run-none c es d' in
            (
              λ h. inr (later.0 (rw (run, went) at h)),
              λ q. elim q [ inl x ↦ cc (fatal.1 x, went) | inr x ↦ rw (run, went) (later.1 x) ],
            )
      ]
  run-none c (pass status now later ∷ es) d = run-none c es (loop b status now later d)
