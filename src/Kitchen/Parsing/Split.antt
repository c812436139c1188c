-- ===== src/Kitchen/Parsing/Split.antt =====
-- The fields of a payload against a plain split at its commas.
use smarthouse_arduino.Base.{
  ℕ, zero, suc, ◌-◌, ◌≤◌, ◌<◌, ◌≡◌, ◌≢◌, ◌↔◌, refl, ◌∙◌, none, some, [], ◌∷◌, ◌++◌, map, arith,
  length, get_or, drop, replicate, ℕ_discrete, dec_lt,
}
use smarthouse_arduino.Kitchen.Parsing.{
  Bytes, Record, scan, until_nul, c_string, parse_command_string, max_field_count, max_payload_size,
  no_record,
}
use smarthouse_arduino.Kitchen.Parsing.Scan.{
  first_piece, later_pieces, split, commas, HasNoNul, cut, offsets, at, scan-cut, scan-overflow,
  until_nul-cut, c_strings-offsets,
}

abbrev split_record : ℕ → Bytes → Bytes → Record
split_record k s tail = record {
  command = k;
  fields = 2 ∷ offsets 2 s;
  buffer = k ∷ b',' ∷ (cut s ++ tail);
}

-- The payload `k,s`: the scan starts behind the comma.
module _ (k : ℕ) (s : Bytes) (h : 0 < length s) (l : length s < 48) where
  start_scan :
      parse_command_string (some (k ∷ b',' ∷ s))
      ≡ scan (length s) 2 (at k (2 ∷ []) (k ∷ b',' ∷ []) s (replicate (48 - length s) 0))
  unfolding parse_command_string
  start_scan =
      let rounds : suc (suc (length s)) - 2 ≡ length s = omega arith in
      let filling : max_payload_size - suc (suc (length s)) ≡ 48 - length s = omega arith in
      rw (rounds, filling) (ground arith)

  pub parse_command_string-cut :
      commas s < max_field_count
      → parse_command_string (some (k ∷ b',' ∷ s))
        ≡ some (split_record k s (replicate (48 - length s) 0))
  parse_command_string-cut m =
      start_scan
      ∙ scan-cut s (k ∷ b',' ∷ []) (replicate (48 - length s) 0) k 2 (2 ∷ []) refl (omega arith)

  parse_command_string-overflow :
      max_field_count ≤ commas s → parse_command_string (some (k ∷ b',' ∷ s)) ≡ none
  parse_command_string-overflow m =
      start_scan
      ∙ scan-overflow s (k ∷ b',' ∷ []) (replicate (48 - length s) 0) k 2 (2 ∷ []) refl
          (omega arith) (omega arith)

replicate-pos : (n : ℕ) → 0 < n → replicate {A = ℕ} n 0 ≡ 0 ∷ replicate {A = ℕ} (n - 1) 0
replicate-pos zero h = absurd (omega arith)
replicate-pos (suc n) h = let e : suc n - 1 ≡ n = omega arith in rw e

-- A payload of a command character, a comma and a text of 1 to 47 bytes without a NUL and with fewer
-- than four commas gives a record: the strings at its pointers are the pieces between the commas of
-- that text.
pub parse_command_string-split :
    (k : ℕ) (s : Bytes)
    → 0 < length s
    → length s < 48
    → commas s < max_field_count
    → HasNoNul s
    → (r : Record) × (parse_command_string (some (k ∷ b',' ∷ s)) ≡ some r)
      × (r.command ≡ k)
      × (map (c_string r.buffer) r.fields ≡ split s)
parse_command_string-split k s h l m n =
    let tail : Bytes = replicate (48 - length s - 1) 0 in
    let first : until_nul (cut s ++ 0 ∷ tail) ≡ first_piece s = until_nul-cut s tail n in
    let later : map (c_string (k ∷ b',' ∷ (cut s ++ 0 ∷ tail))) (offsets 2 s) ≡ later_pieces s =
      c_strings-offsets s (k ∷ b',' ∷ []) tail 2 refl n in
    (
      split_record k s (0 ∷ tail),
      rw (← replicate-pos (48 - length s) (omega arith)) (parse_command_string-cut k s h l m),
      refl,
      rw (first, later),
    )

-- A text of at least three bytes whose second byte is no comma, or that is too long, is not split.
pub parse_command_string-format :
    (k c : ℕ) (s : Bytes)
    → 0 < length s
    → c ≢ b','
    → parse_command_string (some (k ∷ c ∷ s)) ≡ some no_record
unfolding parse_command_string
parse_command_string-format k c s h d = ground arith

pub parse_command_string-long :
    (k c : ℕ) (s : Bytes) → 48 ≤ length s → parse_command_string (some (k ∷ c ∷ s)) ≡ some no_record
unfolding parse_command_string
parse_command_string-long k c s h = ground arith

abbrev pub Overflows : Bytes → Type 0
Overflows input =
    (2 < length input)
    × (length input < max_payload_size)
    × (get_or input 1 0 ≡ b',')
    × (max_field_count ≤ commas (drop 2 input))

-- The scan writes behind `fields` exactly if the payload is longer than two and shorter than fifty
-- bytes, has a comma behind the command character, and at least four commas behind that one.
pub parse_command_string-none :
    (input : Bytes) → (parse_command_string (some input) ≡ none) ↔ Overflows input
unfolding parse_command_string scan
parse_command_string-none [] = ((λ p. cc), λ q. absurd (omega arith))
parse_command_string-none (k ∷ []) = ((λ p. cc), λ q. absurd (omega arith))
parse_command_string-none (k ∷ c ∷ []) = ((λ p. cc), λ q. absurd (omega arith))
parse_command_string-none (k ∷ c ∷ x ∷ s) =
    let h : 0 < length (x ∷ s) = omega arith in
    elim (ℕ_discrete c b',') [
      | no other ↦
          (λ p. cc (parse_command_string-format k c (x ∷ s) h other, p), λ q. absurd (other q.2))
      | yes comma ↦ elim (dec_lt (length s) 47) [
        | no long ↦ (
          λ p. cc (parse_command_string-long k c (x ∷ s) (omega arith), p),
          λ q. absurd (omega arith),
        )
        | yes short ↦ elim (dec_lt (commas (x ∷ s)) 4) [
          | yes few ↦ (
            λ p. cc (parse_command_string-cut k (x ∷ s) h (omega arith) few, comma, p),
            λ q. absurd (omega arith),
          )
          | no many ↦ (
            λ p. (omega arith, omega arith, comma, omega arith),
            λ q. rw comma (parse_command_string-overflow k (x ∷ s) h (omega arith) (omega arith)),
          )
        ]
      ]
    ]
