-- ===== src/Tests/FaderSamples.antt =====
-- Fractions of whole numbers for `float`, and a memory, for the faders.
use smarthouse_arduino.Base.{
  ℕ, ◌<◌, ◌≤◌, ◌+◌, ◌*◌, ◌/◌, Bool, arith, leb, if◌then◌else◌, ℤ, pos, negsuc, sub_ℕ,
}
use native.Mathlib.Nat.{div-le_self}
use smarthouse_arduino.Kitchen.Types.{Storage}
use smarthouse_arduino.LedFader.{Float, IsFloat}
use smarthouse_arduino.LedFader.Implements.{Rom, IsRom}
use smarthouse_arduino.Tests.Samples.{byte_storage, byte_storage_lem, byte_color-IsByteColor}

abbrev pub at_most : ℕ → ℕ → ℕ
at_most n k = if leb n k then n else k

abbrev pub whole_share : ℤ → ℕ × ℕ → ℤ
whole_share (pos n) (a, b) = pos (at_most n ((n * a) / b))
whole_share (negsuc n) (a, b) = sub_ℕ 0 (at_most (n + 1) (((n + 1) * a) / b))

abbrev pub whole_divided : ℕ × ℕ → ℕ × ℕ → ℕ × ℕ
whole_divided (a, b) (c, d) = (a * d, b * c)

abbrev pub whole_plus : ℕ × ℕ → ℕ × ℕ → ℕ × ℕ
whole_plus (a, b) (c, d) = (a * d + c * b, b * d)

abbrev pub whole_full : ℕ × ℕ → Bool
whole_full (a, b) = leb b a

abbrev pub whole_round : ℕ × ℕ → ℕ
whole_round (a, b) = a / b

abbrev pub fractions : Float
fractions = record {
  F = ℕ × ℕ;
  nought = (0, 1);
  hundred = (100, 1);
  of_long = λ n. (n, 1);
  divided = whole_divided;
  plus = whole_plus;
  is_full = whole_full;
  share = whole_share;
  round_long = whole_round;
  round_byte = whole_round;
}

whole_round_lem : (a b : ℕ) → 0 < b → (a * 1) / (1 * b) ≤ a
whole_round_lem a b p = omega (arith, div-le_self (a * 1) (1 * b))

pub fractions-IsFloat : IsFloat fractions
fractions-IsFloat = record {
  full = λ t d p h. ground (arith, h);
  share_up = λ n t d h. ground arith;
  share_down = λ n t d h. ground arith;
  round_le = λ a b h p. whole_round_lem a b p;
}

abbrev pub cells : Rom
cells = record { Cells = Storage; get = byte_storage; put = λ x r. x }

pub cells-IsRom : IsRom cells
cells-IsRom = record {
  get-put = λ x r h. byte_storage_lem x h;
  get_bytes = λ r. record {
    version_byte = omega arith;
    external_bytes = byte_color-IsByteColor r.external_colors;
    button_bytes = byte_color-IsByteColor r.button_colors;
  };
}
