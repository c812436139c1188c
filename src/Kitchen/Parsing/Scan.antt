-- ===== src/Kitchen/Parsing/Scan.antt =====
-- The loop of `parse_command_string` over the bytes behind the first comma: what it leaves in the
-- buffer and in `fields`, and when it runs over the end of `fields`.
use mathlib.Core.List.{append-nil, append_assoc}
use smarthouse_arduino.Base.{
  ℕ, suc, ◌+◌, ◌≤◌, ◌<◌, ◌≡◌, ◌≢◌, refl, sym, ◌∙◌, none, some, List, [], ◌∷◌, ◌++◌, map, arith,
  ◌==◌, if◌then◌else◌, length, get_or, set, length-append, ℕ_discrete, dec_lt, get_or-append,
  set-append, drop-append,
}
use smarthouse_arduino.Kitchen.Parsing.{
  Bytes, Record, count, scan, until_nul, c_string, max_field_count,
}

-- The pieces of a text between commas; the first one is apart.
abbrev pub first_piece : Bytes → Bytes
first_piece [] = []
first_piece (c ∷ cs) = if c == b',' then [] else c ∷ first_piece cs

abbrev pub later_pieces : Bytes → List Bytes
later_pieces [] = []
later_pieces (c ∷ cs) = if c == b',' then first_piece cs ∷ later_pieces cs else later_pieces cs

abbrev pub split : Bytes → List Bytes
split cs = first_piece cs ∷ later_pieces cs

abbrev pub commas : Bytes → ℕ
commas [] = 0
commas (c ∷ cs) = (if c == b',' then 1 else 0) + commas cs

abbrev pub HasNoNul : Bytes → Type 0
HasNoNul [] = Unit {0}
HasNoNul (c ∷ cs) = (c ≢ 0) × HasNoNul cs

-- What the loop leaves in the buffer, and the offsets that it appends.
abbrev pub cut : Bytes → Bytes
cut [] = []
cut (c ∷ cs) = (if c == b',' then 0 else c) ∷ cut cs

abbrev pub offsets : ℕ → Bytes → List ℕ
offsets n [] = []
offsets n (c ∷ cs) = if c == b',' then (n + 1) ∷ offsets (n + 1) cs else offsets (n + 1) cs

length-concat : (done : Bytes) (c : ℕ) → length (done ++ c ∷ []) ≡ length done + 1
length-concat done c = length-append done (c ∷ [])

-- One pass of the loop, by the byte that stands at `i`.
module _ (n i : ℕ) (r : Record) where
  scan_comma :
      get_or r.buffer i 0 ≡ b','
      → count r < max_field_count
      → scan (suc n) i r
        ≡ scan n (i + 1) (record r { fields = r.fields ++ (i + 1) ∷ []; buffer = set r.buffer i 0 })
  unfolding scan
  scan_comma e h = ground arith

  scan_full : get_or r.buffer i 0 ≡ b',' → max_field_count ≤ count r → scan (suc n) i r ≡ none
  unfolding scan
  scan_full e h = ground arith

  scan_plain : get_or r.buffer i 0 ≢ b',' → scan (suc n) i r ≡ scan n (i + 1) r
  unfolding scan
  scan_plain e = ground arith

abbrev pub at : ℕ → List ℕ → Bytes → Bytes → Bytes → Record
at k fs done s tail = record { command = k; fields = fs; buffer = done ++ (s ++ tail) }

-- Two steps of the scan over its first byte, as the rest of the scan needs them.
module _ (c : ℕ) (s done tail : Bytes) (k i : ℕ) (fs : List ℕ) (e : i ≡ length done) where
  read_at : get_or (done ++ c ∷ (s ++ tail)) i 0 ≡ c
  read_at = rw e (get_or-append done (s ++ tail) c 0)

  scan-comma :
      c ≡ b','
      → length fs < max_field_count
      → scan (suc (length s)) i (at k fs done (c ∷ s) tail)
        ≡ scan (length s) (i + 1) (at k (fs ++ (i + 1) ∷ []) (done ++ 0 ∷ []) s tail)
  scan-comma comma h =
      scan_comma (length s) i (at k fs done (c ∷ s) tail) (read_at ∙ comma) h
      ∙ rw (e, set-append done (s ++ tail) c 0, append_assoc)

  scan-plain :
      c ≢ b','
      → scan (suc (length s)) i (at k fs done (c ∷ s) tail)
        ≡ scan (length s) (i + 1) (at k fs (done ++ c ∷ []) s tail)
  scan-plain plain =
      scan_plain (length s) i (at k fs done (c ∷ s) tail) (λ q. plain (sym read_at ∙ q))
      ∙ rw append_assoc

  scan-full :
      c ≡ b','
      → max_field_count ≤ length fs
      → scan (suc (length s)) i (at k fs done (c ∷ s) tail) ≡ none
  scan-full comma h = scan_full (length s) i (at k fs done (c ∷ s) tail) (read_at ∙ comma) h

pub scan-cut :
    (s done tail : Bytes) (k i : ℕ) (fs : List ℕ)
    → i ≡ length done
    → length fs + commas s ≤ max_field_count
    → scan (length s) i (at k fs done s tail)
      ≡ some (record { command = k; fields = fs ++ offsets i s; buffer = done ++ (cut s ++ tail) })
unfolding scan
scan-cut [] done tail k i fs e h = rw append-nil
scan-cut (c ∷ s) done tail k i fs e h = elim (ℕ_discrete c b',') [
  | yes comma ↦
      scan-comma c s done tail k i fs e comma (ground arith)
      ∙ scan-cut s (done ++ 0 ∷ []) tail k (i + 1) (fs ++ (i + 1) ∷ [])
          (omega (arith, length-concat done 0)) (ground (arith, length-concat fs (i + 1)))
      ∙ ground (
        arith,
        append_assoc fs ((i + 1) ∷ []) (offsets (i + 1) s),
        append_assoc done (0 ∷ []) (cut s ++ tail),
      )
  | no plain ↦
      scan-plain c s done tail k i fs e plain
      ∙ scan-cut s (done ++ c ∷ []) tail k (i + 1) fs (omega (arith, length-concat done c))
          (ground arith)
      ∙ ground (arith, append_assoc done (c ∷ []) (cut s ++ tail))
]

pub scan-overflow :
    (s done tail : Bytes) (k i : ℕ) (fs : List ℕ)
    → i ≡ length done
    → max_field_count < length fs + commas s
    → length fs ≤ max_field_count
    → scan (length s) i (at k fs done s tail) ≡ none
scan-overflow [] done tail k i fs e h l = absurd (omega arith)
scan-overflow (c ∷ s) done tail k i fs e h l = elim (ℕ_discrete c b',') [
  | yes comma ↦ elim (dec_lt (length fs) max_field_count) [
    | yes room ↦
        scan-comma c s done tail k i fs e comma room
        ∙ scan-overflow s (done ++ 0 ∷ []) tail k (i + 1) (fs ++ (i + 1) ∷ [])
            (omega (arith, length-concat done 0)) (ground (arith, length-concat fs (i + 1)))
            (ground (arith, length-concat fs (i + 1)))
    | no full ↦ scan-full c s done tail k i fs e comma (omega arith)
  ]
  | no plain ↦
      scan-plain c s done tail k i fs e plain
      ∙ scan-overflow s (done ++ c ∷ []) tail k (i + 1) fs (omega (arith, length-concat done c))
          (ground arith) l
]

pub until_nul-cut : (s tail : Bytes) → HasNoNul s → until_nul (cut s ++ 0 ∷ tail) ≡ first_piece s
until_nul-cut [] tail h = refl
until_nul-cut (c ∷ s) tail h = ground (arith, until_nul-cut s tail h.1)

c_string-first :
    (done s tail : Bytes)
    → HasNoNul s
    → c_string (done ++ (cut s ++ 0 ∷ tail)) (length done) ≡ first_piece s
c_string-first done s tail h = rw (drop-append done (cut s ++ 0 ∷ tail)) (until_nul-cut s tail h)

pub c_strings-offsets :
    (s done tail : Bytes) (i : ℕ)
    → i ≡ length done
    → HasNoNul s
    → map (c_string (done ++ (cut s ++ 0 ∷ tail))) (offsets i s) ≡ later_pieces s
c_strings-offsets [] done tail i e h = refl
c_strings-offsets (c ∷ s) done tail i e h = elim (ℕ_discrete c b',') [
  | yes comma ↦
      let e' : i + 1 ≡ length (done ++ 0 ∷ []) = omega (arith, length-concat done 0) in
      let first : c_string (done ++ 0 ∷ (cut s ++ 0 ∷ tail)) (i + 1) ≡ first_piece s =
        rw e' (rw append_assoc at (c_string-first (done ++ 0 ∷ []) s tail h.1)) in
      let later : map (c_string (done ++ 0 ∷ (cut s ++ 0 ∷ tail))) (offsets (i + 1) s)
          ≡ later_pieces s =
        rw append_assoc at (c_strings-offsets s (done ++ 0 ∷ []) tail (i + 1) e' h.1) in
      ground (arith, first, later)
  | no plain ↦
      let later : map (c_string (done ++ c ∷ (cut s ++ 0 ∷ tail))) (offsets (i + 1) s)
          ≡ later_pieces s =
        rw append_assoc at (
          c_strings-offsets s (done ++ c ∷ []) tail (i + 1) (omega (arith, length-concat done c))
            h.1) in
      ground (arith, later)
]
