-- ===== src/LedFader/Curve.antt =====
-- libraries/LEDFader/Curve.cpp: the curves from a level to the output of a pin.
use smarthouse_arduino.Base.{
  ℕ, zero, suc, ◌-◌, ◌≤◌, ◌<◌, ◌≡◌, ◌↔◌, refl, Bool, true, ◌&&◌, List, [], ◌∷◌, length, get_or, leb,
  arith, ℕ_discrete,
}

unfoldable etable : List ℕ
etable =
    0 ∷ 1 ∷ 1 ∷ 1 ∷ 1 ∷ 1 ∷ 1 ∷ 1 ∷ 1 ∷ 1 ∷ 1 ∷ 1 ∷ 1 ∷ 1 ∷ 1 ∷ 1 ∷ 1 ∷ 1 ∷ 1 ∷ 2 ∷ 2 ∷ 2 ∷ 2 ∷ 2
    ∷ 2 ∷ 2 ∷ 2 ∷ 2 ∷ 2 ∷ 2 ∷ 2 ∷ 2 ∷ 2 ∷ 2 ∷ 2 ∷ 2 ∷ 2 ∷ 2 ∷ 2 ∷ 2 ∷ 2 ∷ 2 ∷ 2 ∷ 3 ∷ 3 ∷ 3 ∷ 3 ∷ 3
    ∷ 3 ∷ 3 ∷ 3 ∷ 3 ∷ 3 ∷ 3 ∷ 3 ∷ 3 ∷ 3 ∷ 3 ∷ 4 ∷ 4 ∷ 4 ∷ 4 ∷ 4 ∷ 4 ∷ 4 ∷ 4 ∷ 4 ∷ 4 ∷ 4 ∷ 4 ∷ 5 ∷ 5
    ∷ 5 ∷ 5 ∷ 5 ∷ 5 ∷ 5 ∷ 5 ∷ 5 ∷ 6 ∷ 6 ∷ 6 ∷ 6 ∷ 6 ∷ 6 ∷ 6 ∷ 6 ∷ 7 ∷ 7 ∷ 7 ∷ 7 ∷ 7 ∷ 7 ∷ 8 ∷ 8 ∷ 8
    ∷ 8 ∷ 8 ∷ 8 ∷ 9 ∷ 9 ∷ 9 ∷ 9 ∷ 9 ∷ 10 ∷ 10 ∷ 10 ∷ 10 ∷ 10 ∷ 11 ∷ 11 ∷ 11 ∷ 11 ∷ 12 ∷ 12 ∷ 12 ∷ 12
    ∷ 13 ∷ 13 ∷ 13 ∷ 14 ∷ 14 ∷ 14 ∷ 14 ∷ 15 ∷ 15 ∷ 15 ∷ 16 ∷ 16 ∷ 16 ∷ 17 ∷ 17 ∷ 18 ∷ 18 ∷ 18 ∷ 19
    ∷ 19 ∷ 20 ∷ 20 ∷ 21 ∷ 21 ∷ 21 ∷ 22 ∷ 22 ∷ 23 ∷ 23 ∷ 24 ∷ 24 ∷ 25 ∷ 25 ∷ 26 ∷ 27 ∷ 27 ∷ 28 ∷ 28
    ∷ 29 ∷ 30 ∷ 30 ∷ 31 ∷ 32 ∷ 32 ∷ 33 ∷ 34 ∷ 35 ∷ 35 ∷ 36 ∷ 37 ∷ 38 ∷ 39 ∷ 39 ∷ 40 ∷ 41 ∷ 42 ∷ 43
    ∷ 44 ∷ 45 ∷ 46 ∷ 47 ∷ 48 ∷ 49 ∷ 50 ∷ 51 ∷ 52 ∷ 53 ∷ 55 ∷ 56 ∷ 57 ∷ 58 ∷ 59 ∷ 61 ∷ 62 ∷ 63 ∷ 65
    ∷ 66 ∷ 68 ∷ 69 ∷ 71 ∷ 72 ∷ 74 ∷ 76 ∷ 77 ∷ 79 ∷ 81 ∷ 82 ∷ 84 ∷ 86 ∷ 88 ∷ 90 ∷ 92 ∷ 94 ∷ 96 ∷ 98
    ∷ 100 ∷ 102 ∷ 105 ∷ 107 ∷ 109 ∷ 112 ∷ 114 ∷ 117 ∷ 119 ∷ 122 ∷ 124 ∷ 127 ∷ 130 ∷ 133 ∷ 136 ∷ 139
    ∷ 142 ∷ 145 ∷ 148 ∷ 151 ∷ 155 ∷ 158 ∷ 162 ∷ 165 ∷ 169 ∷ 172 ∷ 176 ∷ 180 ∷ 184 ∷ 188 ∷ 192 ∷ 196
    ∷ 201 ∷ 205 ∷ 210 ∷ 214 ∷ 219 ∷ 224 ∷ 229 ∷ 234 ∷ 239 ∷ 244 ∷ 250 ∷ 255 ∷ []

-- `pgm_read_byte(&etable[i])`
unfoldable pub exponential : ℕ → ℕ
unfolding etable
exponential i = get_or etable i 0

unfoldable pub linear : ℕ → ℕ
linear i = i

unfoldable pub reverse : ℕ → ℕ
reverse i = 255 - i

-- Each entry from the second on is at least the one before.
abbrev rising : ℕ → List ℕ → Bool
rising before [] = true
rising before (x ∷ xs) = leb before x && rising x xs

rising-etable : rising 0 etable ≡ true
unfolding etable
rising-etable = refl

length-etable : length etable ≡ 256
unfolding etable
length-etable = refl

rising-head : (b : ℕ) (xs : List ℕ) (i : ℕ) → rising b xs ≡ true → i < length xs → b ≤ get_or xs i 0
rising-head b [] i h l = omega (arith, l)
rising-head b (x ∷ xs) zero h l = ground (arith, h)
rising-head b (x ∷ xs) (suc i) h l = ground (arith, h, rising-head x xs i)

rising_mono :
    (b : ℕ) (xs : List ℕ) (i j : ℕ)
    → rising b xs ≡ true
    → i ≤ j
    → j < length xs
    → get_or xs i 0 ≤ get_or xs j 0
rising_mono b [] i j h l k = omega (arith, k)
rising_mono b (x ∷ xs) zero zero h l k = omega arith
rising_mono b (x ∷ xs) zero (suc j) h l k = ground (arith, h, rising-head x xs j)
rising_mono b (x ∷ xs) (suc i) zero h l k = omega (arith, l)
rising_mono b (x ∷ xs) (suc i) (suc j) h l k = ground (arith, h, rising_mono x xs i j)

-- The exponential curve never falls.
pub exponential_mono : (i j : ℕ) → i ≤ j → j < 256 → exponential i ≤ exponential j
unfolding exponential
exponential_mono i j h l = rising_mono 0 etable i j rising-etable h (rw length-etable l)

exponential_1 : exponential 1 ≡ 1
unfolding exponential
exponential_1 = refl

exponential_0 : exponential 0 ≡ 0
unfolding exponential
exponential_0 = refl

exponential_255 : exponential 255 ≡ 255
unfolding exponential
exponential_255 = refl

-- On a byte, the exponential curve is dark at level 0 and at no other, full at level 255, and never
-- falls between two levels.
pub exponential_lem :
    (i j : ℕ)
    → i ≤ j
    → j < 256
    → (exponential i ≤ exponential j) × (exponential j ≤ 255) × ((exponential j ≡ 0) ↔ (j ≡ 0))
exponential_lem i j h l =
    let top : exponential j ≤ exponential 255 =
      exponential_mono j 255 (omega arith) (omega arith) in
    (
      exponential_mono i j h l,
      omega (arith, top, exponential_255),
      (
        λ dark. elim (ℕ_discrete j 0) [
          | yes z ↦ z
          | no n ↦
              let lit : exponential 1 ≤ exponential j = exponential_mono 1 j (omega arith) l in
              absurd (omega (arith, lit, exponential_1, dark))
        ],
        λ z. rw z exponential_0,
      ),
    )
