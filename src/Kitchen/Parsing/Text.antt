-- ===== src/Kitchen/Parsing/Text.antt =====
-- Payload texts: hexadecimal colours, decimal times, and the documented conversions of the C library.
use smarthouse_arduino.Base.{
  ℕ, ◌+◌, ◌-◌, ◌*◌, ◌/◌, ◌%◌, ◌^◌, ◌≤◌, ◌<◌, ◌≡◌, ◌≢◌, refl, true, ◌&&◌, Option, none, some, [],
  ◌∷◌, ◌++◌, arith, ltb, leb, if◌then◌else◌, length,
}
use smarthouse_arduino.Kitchen.Types.{IsByteColor, Rgbw, LedType, color, white, no_color}
use smarthouse_arduino.Kitchen.Parsing.{Bytes, Stdlib, hex_to_byte, string_to_white}
use smarthouse_arduino.Kitchen.Parsing.Command.{string_to_rgb, string_to_rgbw}
use smarthouse_arduino.Kitchen.Parsing.Scan.{split, commas, HasNoNul}
use smarthouse_arduino.Kitchen.Parsing.Errno.{NeverClears}

abbrev pub hex_value : ℕ → Option ℕ
hex_value c =
    if leb b'0' c && leb c b'9'
    then some (c - b'0')
    else if leb b'a' c && leb c b'f'
    then some (c - b'a' + 10)
    else if leb b'A' c && leb c b'F'
    then some (c - b'A' + 10)
    else none

abbrev pub decimal_from : ℕ → Bytes → ℕ
decimal_from acc [] = acc
decimal_from acc (c ∷ cs) = decimal_from (acc * 10 + (c - b'0')) cs

abbrev pub IsDigits : Bytes → Type 0
IsDigits [] = Unit {0}
IsDigits (c ∷ cs) = (b'0' ≤ c) × (c ≤ b'9') × IsDigits cs

abbrev pub erange : ℕ
erange = 34

-- What the C standard says of the texts that the sketch sends to the library: two hexadecimal digits,
-- and decimal digits whose value does or does not fit an `unsigned long`. No standard says what `%s`
-- prints for NULL; the parser relies on a `vsnprintf_P` that prints something, and that is the last law.
pub record IsDocumented (c : Stdlib) : Type 0 where
  pub hex_pair :
      (x y hx hy : ℕ)
      → hex_value x ≡ some hx
      → hex_value y ≡ some hy
      → c.strtol (x ∷ y ∷ []) 16 ≡ record { value = hx * 16 + hy; error = none }
  pub fits :
      (ds : Bytes)
      → 0 < length ds
      → IsDigits ds
      → decimal_from 0 ds < 2 ^ 32
      → c.strtoul ds 10 ≡ record { value = decimal_from 0 ds; error = none }
  pub overflows :
      (ds : Bytes)
      → 0 < length ds
      → IsDigits ds
      → 2 ^ 32 ≤ decimal_from 0 ds
      → c.strtoul ds 10 ≡ record { value = 2 ^ 32 - 1; error = some erange }
  pub never_clears : NeverClears c
  pub null_prints : c.prints_null ≡ true

-- `%x` digits of a byte.
unfoldable pub hex_digit : ℕ → ℕ
hex_digit d = if ltb d 10 then d + b'0' else d - 10 + b'a'

abbrev pub hex_byte : ℕ → Bytes
hex_byte n = hex_digit (n / 16) ∷ hex_digit (n % 16) ∷ []

abbrev pub color_text : LedType → Rgbw → Bytes
color_text color c = hex_byte c.r ++ (hex_byte c.g ++ hex_byte c.b)
color_text white c = hex_byte c.w

-- The channels that a command for one kind of LED carries.
abbrev pub shown : LedType → Rgbw → Rgbw
shown color c = record c { w = 0 }
shown white c = record no_color { w = c.w }

hex_value-hex_digit : (d : ℕ) → d < 16 → hex_value (hex_digit d) ≡ some d
unfolding hex_digit
hex_value-hex_digit d h = ground arith

hex_digit-ne : (d : ℕ) → d < 16 → (hex_digit d ≢ b',') × (hex_digit d ≢ 0)
unfolding hex_digit
hex_digit-ne d h = ground arith

hex_to_byte-hex_byte :
    (c : Stdlib) (n : ℕ)
    → IsDocumented c
    → n < 256
    → hex_to_byte c (hex_byte n) 0 ≡ record { good = true; value = n; errno = 0 }
unfolding hex_to_byte
hex_to_byte-hex_byte c n doc h =
    let hi : n / 16 < 16 = omega arith in
    let lo : n % 16 < 16 = omega arith in
    let pair =
      doc.hex_pair (hex_digit (n / 16)) (hex_digit (n % 16)) (n / 16) (n % 16)
        (hex_value-hex_digit (n / 16) hi) (hex_value-hex_digit (n % 16) lo) in
    ground (arith, pair)

-- No comma and no NUL.
abbrev pub IsPlain : Bytes → Type 0
IsPlain [] = Unit {0}
IsPlain (c ∷ cs) = (c ≢ b',') × (c ≢ 0) × IsPlain cs

pub split-IsPlain : (s : Bytes) → IsPlain s → split s ≡ s ∷ []
split-IsPlain [] h = refl
split-IsPlain (c ∷ cs) h = ground (arith, split-IsPlain cs)

pub split-append : (s rest : Bytes) → IsPlain s → split (s ++ b',' ∷ rest) ≡ s ∷ split rest
split-append [] rest h = refl
split-append (c ∷ cs) rest h = ground (arith, split-append cs rest)

pub commas-IsPlain : (s : Bytes) → IsPlain s → commas s ≡ 0
commas-IsPlain [] h = refl
commas-IsPlain (c ∷ cs) h = ground (arith, commas-IsPlain cs)

pub commas-append : (s rest : Bytes) → commas (s ++ rest) ≡ commas s + commas rest
commas-append [] rest = omega arith
commas-append (c ∷ cs) rest = ground (arith, commas-append cs rest)

pub HasNoNul-IsPlain : (s : Bytes) → IsPlain s → HasNoNul s
HasNoNul-IsPlain [] h = tt
HasNoNul-IsPlain (c ∷ cs) h = (h.1, HasNoNul-IsPlain cs h.2)

pub HasNoNul-append : (s rest : Bytes) → HasNoNul s → HasNoNul rest → HasNoNul (s ++ rest)
HasNoNul-append [] rest h k = k
HasNoNul-append (c ∷ cs) rest h k = (h.0, HasNoNul-append cs rest h.1 k)

pub IsDigits-IsPlain : (s : Bytes) → IsDigits s → IsPlain s
IsDigits-IsPlain [] h = tt
IsDigits-IsPlain (c ∷ cs) h = (omega arith, omega arith, IsDigits-IsPlain cs h.2)

-- Six characters are read as three pairs.
string_to_rgb-pairs :
    (c : Stdlib) (r1 r2 g1 g2 b1 b2 r g b : ℕ)
    → IsPlain (r1 ∷ r2 ∷ g1 ∷ g2 ∷ b1 ∷ b2 ∷ [])
    → hex_to_byte c (r1 ∷ r2 ∷ []) 0 ≡ record { good = true; value = r; errno = 0 }
    → hex_to_byte c (g1 ∷ g2 ∷ []) 0 ≡ record { good = true; value = g; errno = 0 }
    → hex_to_byte c (b1 ∷ b2 ∷ []) 0 ≡ record { good = true; value = b; errno = 0 }
    → string_to_rgb c (some (r1 ∷ r2 ∷ g1 ∷ g2 ∷ b1 ∷ b2 ∷ [])) 0
      ≡ record { good = true; value = record { r = r; g = g; b = b; w = 0 }; errno = 0 }
unfolding string_to_rgb
string_to_rgb-pairs c r1 r2 g1 g2 b1 b2 r g b plain hr hg hb = ground arith

pub color_text-IsPlain : (t : LedType) (x : Rgbw) → IsByteColor x → IsPlain (color_text t x)
color_text-IsPlain color x b = ground (
  arith,
  hex_digit-ne (x.r / 16),
  hex_digit-ne (x.r % 16),
  hex_digit-ne (x.g / 16),
  hex_digit-ne (x.g % 16),
  hex_digit-ne (x.b / 16),
  hex_digit-ne (x.b % 16),
)
color_text-IsPlain white x b = ground (arith, hex_digit-ne (x.w / 16), hex_digit-ne (x.w % 16))

pub string_to_rgbw-color_text :
    (c : Stdlib) (t : LedType) (x y : Rgbw)
    → IsDocumented c
    → IsByteColor x
    → string_to_rgbw c t (color_text t x) y 0 ≡ record { good = true; value = shown t x; errno = 0 }
unfolding string_to_rgbw string_to_white
string_to_rgbw-color_text c color x y doc b =
    string_to_rgb-pairs c _ _ _ _ _ _ x.r x.g x.b (color_text-IsPlain color x b)
      (hex_to_byte-hex_byte c x.r doc b.0) (hex_to_byte-hex_byte c x.g doc b.1)
      (hex_to_byte-hex_byte c x.b doc b.2)
string_to_rgbw-color_text c white x y doc b = ground (arith, hex_to_byte-hex_byte c x.w doc b.3)
