-- ===== src/Kitchen/Parsing/Fatal.antt =====
-- Which payloads make `parse_command` leave the language.
use smarthouse_arduino.Base.{
  ℕ, ◌+◌, ◌<◌, ◌≡◌, ◌≢◌, ◌⊎◌, ◌↔◌, refl, sym, ap, ◌∙◌, inl, inr, false, Option, none, some, [], ◌∷◌,
  arith, length, get_or, drop, ℕ_discrete, dec_lt, Bool-cases, Option-cases, some_inj,
}
use smarthouse_arduino.Kitchen.Parsing.{
  scan, Bytes, Stdlib, Record, count, no_record, parse_command_string, max_field_count,
  max_payload_size,
}
use smarthouse_arduino.Kitchen.Parsing.Command.{
  dispatch_command, parse_command, parse_command-logged,
}
use smarthouse_arduino.Kitchen.Parsing.Scan.{commas, offsets}
use smarthouse_arduino.Kitchen.Parsing.Split.{
  Overflows, parse_command_string-none, parse_command_string-cut, parse_command_string-format,
  parse_command_string-long,
}
use smarthouse_arduino.Kitchen.Types.{LedType}

-- A payload with exactly four fields.
abbrev pub Fills : Bytes → Type 0
Fills input =
    (2 < length input)
    × (length input < max_payload_size)
    × (get_or input 1 0 ≡ b',')
    × (commas (drop 2 input) + 1 ≡ max_field_count)

-- A payload on which the parser leaves the language: NULL, too many fields, or too few of them for a
-- `vsnprintf_P` that does not return when it is given NULL.
abbrev pub Faults : Stdlib → Option Bytes → Type 0
Faults c none = Unit {0}
Faults c (some input) = Overflows input ⊎ ((c.prints_null ≡ false) × ¬ Fills input)

length-offsets : (n : ℕ) (s : Bytes) → length (offsets n s) ≡ commas s
length-offsets n [] = refl
length-offsets n (c ∷ cs) = ground (arith, length-offsets (n + 1) cs)

count_of :
    (input : Bytes) (r r' : Record)
    → parse_command_string (some input) ≡ some r
    → parse_command_string (some input) ≡ some r'
    → count r ≡ count r'
count_of input r r' got got' = ap count (some_inj (sym got ∙ got'))

-- The count of a payload without fields, and of one with fields.
no_fields :
    (input : Bytes) (r r' : Record)
    → parse_command_string (some input) ≡ some r
    → parse_command_string (some input) ≡ some r'
    → count r' ≡ 0
    → ¬ Fills input
    → (count r ≡ max_field_count) ↔ Fills input
no_fields input r r' got got' zero_fields n = (
  (λ full. absurd (omega (arith, full, count_of input r r' got got', zero_fields))),
  λ fills. absurd (n fills),
)

-- All four slots of `fields` are written exactly if there are four fields.
count-Fills :
    (input : Bytes) (r : Record)
    → parse_command_string (some input) ≡ some r
    → (count r ≡ max_field_count) ↔ Fills input
unfolding parse_command_string scan
count-Fills [] r got = no_fields [] r no_record got refl refl (λ f. omega (arith, f))
count-Fills (k ∷ []) r got = no_fields (k ∷ []) r _ got refl refl (λ f. omega (arith, f))
count-Fills (k ∷ c ∷ []) r got = no_fields (k ∷ c ∷ []) r _ got refl refl (λ f. omega (arith, f))
count-Fills (k ∷ c ∷ x ∷ s) r got =
    let h : 0 < length (x ∷ s) = omega arith in
    elim (ℕ_discrete c b',') [
      | no other ↦
          no_fields (k ∷ c ∷ x ∷ s) r no_record got
            (parse_command_string-format k c (x ∷ s) h other) refl (λ f. other f.2)
      | yes comma ↦ elim (dec_lt (length s) 47) [
        | no long ↦
            no_fields (k ∷ c ∷ x ∷ s) r no_record got
              (parse_command_string-long k c (x ∷ s) (omega arith)) refl (λ f. omega (arith, f))
        | yes short ↦ elim (dec_lt (commas (x ∷ s)) 4) [
          | no many ↦ cc (
            (parse_command_string-none (k ∷ c ∷ x ∷ s)).1
                (omega arith, omega arith, comma, omega arith),
            got,
          )
          | yes few ↦
              let cut_at = parse_command_string-cut k (x ∷ s) h (omega arith) few in
              let counted : count r ≡ commas (x ∷ s) + 1 = omega (
                arith,
                count_of (k ∷ b',' ∷ x ∷ s) r _ (rw comma at got) cut_at,
                length-offsets 2 (x ∷ s),
              ) in
              (
                λ full. (omega arith, omega arith, comma, omega (arith, full, counted)),
                λ f. omega (arith, f.3, counted),
              )
        ]
      ]
    ]

fatal_null : (c : Stdlib) (t : LedType) (e : ℕ) → parse_command c none t e ≡ none
unfolding parse_command parse_command_string dispatch_command
fatal_null c t e = ground arith

dispatch-some :
    (c : Stdlib) (input : Bytes) (r : Record) (t : LedType) (e : ℕ)
    → dispatch_command c (some input) r t e ≢ none
unfolding dispatch_command
dispatch-some c input r t e = λ h. ground (arith, h)

fatal_fields :
    (c : Stdlib) (input : Bytes) (t : LedType) (e : ℕ)
    → parse_command_string (some input) ≡ none
    → parse_command c (some input) t e ≡ none
unfolding parse_command
fatal_fields c input t e out = ground (arith, out)

-- The parser does not return exactly on these payloads.
pub parse_command-none :
    (c : Stdlib) (payload : Option Bytes) (t : LedType) (e : ℕ)
    → (parse_command c payload t e ≡ none) ↔ Faults c payload
parse_command-none c none t e = ((λ h. tt), λ h. fatal_null c t e)
parse_command-none c (some input) t e = elim (Option-cases (parse_command_string (some input))) [
  | inl out ↦
      ((λ h. inl ((parse_command_string-none input).0 out)), λ h. fatal_fields c input t e out)
  | inr (r, got) ↦
      let ran = parse_command-logged c input r t e got in
      let fits : ¬ Overflows input = λ q. cc ((parse_command_string-none input).1 q, got) in
      let filled = count-Fills input r got in
      elim (ℕ_discrete (count r) max_field_count) [
        | yes full ↦ (
          λ h. absurd (dispatch-some c input r t e (ground (arith, ran, h, full))),
          λ q. absurd (elim q [ inl x ↦ fits x | inr x ↦ x.1 (filled.0 full) ]),
        )
        | no other ↦ elim (Bool-cases c.prints_null) [
          | inl prints ↦ (
            λ h. absurd (dispatch-some c input r t e (ground (arith, ran, h, prints))),
            λ q. absurd (elim q [ inl x ↦ fits x | inr x ↦ cc (x.0, prints) ]),
          )
          | inr silent ↦
              (λ h. inr (silent, λ f. other (filled.1 f)), λ q. ground (arith, ran, other, silent))
        ]
      ]
]
