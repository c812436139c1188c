-- ===== src/Kitchen/Parsing/Payloads.antt =====
-- The texts of commands, and what the parser reads of them.
use smarthouse_arduino.Base.{
  ℕ, ◌≤◌, ◌<◌, ◌≡◌, ◌≢◌, ap, ◌∙◌, Bool, false, not, leb, if◌then◌else◌, some, List, [], ◌∷◌, ◌++◌,
  arith, length, length-append,
}
use smarthouse_arduino.Kitchen.Types.{IsByteColor, Rgbw, LedType, color, white, no_color}
use smarthouse_arduino.Kitchen.Parsing.{Bytes, Stdlib, string_to_ulong, min_interval}
use smarthouse_arduino.Kitchen.Parsing.Command.{finish_limit, finish_transition, parse_command}
use smarthouse_arduino.Kitchen.Parsing.Scan.{split, commas, HasNoNul}
use smarthouse_arduino.Kitchen.Parsing.Dispatch.{IsLimit, IsTransition}
use smarthouse_arduino.Kitchen.Parsing.Refine.{
  read_command, read_limit, read_transition, parse_command-read_logged,
}
use smarthouse_arduino.Kitchen.Parsing.Text.{
  IsDocumented, IsDigits, color_text, shown, IsPlain, split-IsPlain, split-append, commas-IsPlain,
  commas-append, HasNoNul-IsPlain, HasNoNul-append, IsDigits-IsPlain, color_text-IsPlain,
  string_to_rgbw-color_text,
}

abbrev pub limit_payload : ℕ → LedType → Rgbw → Bytes
limit_payload k t x = k ∷ b',' ∷ color_text t x

abbrev pub transition_text : LedType → Rgbw → Rgbw → Bytes → Bytes
transition_text t x y ds = color_text t x ++ b',' ∷ (color_text t y ++ b',' ∷ ds)

abbrev pub transition_payload : ℕ → LedType → Rgbw → Rgbw → Bytes → Bytes
transition_payload k t x y ds = k ∷ b',' ∷ transition_text t x y ds

pub length-color_text :
    (t : LedType) (x : Rgbw) → (0 < length (color_text t x)) × (length (color_text t x) ≤ 6)
length-color_text color x = omega arith
length-color_text white x = omega arith

-- The reading of a command whose character is known.
module _ (c : Stdlib) (k : ℕ) (t : LedType) (pieces : List Bytes) (e : ℕ) where
  pub read_command_limit :
      IsLimit k → read_command c k t pieces e ≡ finish_limit k (read_limit c t pieces e)
  read_command_limit h = ground arith

  read_command_transition :
      (is_loop : Bool)
      → IsTransition k is_loop
      → read_command c k t pieces e ≡ finish_transition k is_loop (read_transition c t pieces e)
  read_command_transition is_loop h = ground arith

module _ (c : Stdlib) (k : ℕ) (t : LedType) (x y : Rgbw) (ds : Bytes) (doc : IsDocumented c)
    (bx : IsByteColor x) (by : IsByteColor y) (digits : IsDigits ds) (short : length ds < 34) where
  px : IsPlain (color_text t x)
  px = color_text-IsPlain t x bx

  py : IsPlain (color_text t y)
  py = color_text-IsPlain t y by

  pd : IsPlain ds
  pd = IsDigits-IsPlain ds digits

  pieces : split (transition_text t x y ds) ≡ color_text t x ∷ color_text t y ∷ ds ∷ []
  pieces =
      split-append (color_text t x) (color_text t y ++ b',' ∷ ds) px
      ∙ rw (split-append (color_text t y) ds py, split-IsPlain ds pd)

  two_commas : commas (transition_text t x y ds) ≡ 2
  two_commas = omega (
    arith,
    commas-append (color_text t x) (b',' ∷ (color_text t y ++ b',' ∷ ds)),
    commas-append (color_text t y) (b',' ∷ ds),
    commas-IsPlain (color_text t x) px,
    commas-IsPlain (color_text t y) py,
    commas-IsPlain ds pd,
  )

  text_length : (0 < length (transition_text t x y ds)) × (length (transition_text t x y ds) < 48)
  text_length = omega (
    arith,
    length-append {0} (color_text t x) (b',' ∷ (color_text t y ++ b',' ∷ ds)),
    length-append {0} (color_text t y) (b',' ∷ ds),
    length-color_text t x,
    length-color_text t y,
  )

  no_nul : HasNoNul (transition_text t x y ds)
  no_nul =
      let comma : ◌≢◌ {A = ℕ} b',' 0 = omega arith in
      HasNoNul-append (color_text t x) _ (HasNoNul-IsPlain _ px) (
        comma,
        HasNoNul-append (color_text t y) _ (HasNoNul-IsPlain _ py) (comma, HasNoNul-IsPlain ds pd),
      )

  pub transition_payload-read :
      (is_loop : Bool)
      → IsTransition k is_loop
      → parse_command c (some (transition_payload k t x y ds)) t 0
        ≡ some (
            finish_transition k is_loop
              (read_transition c t (color_text t x ∷ color_text t y ∷ ds ∷ []) 0))
  transition_payload-read is_loop hk =
      parse_command-read_logged c k (transition_text t x y ds) t 0 doc.null_prints text_length.0
        text_length.1 (omega (arith, two_commas)) no_nul
      ∙ rw pieces (
          ap some (
            read_command_transition c k t (color_text t x ∷ color_text t y ∷ ds ∷ []) 0 is_loop hk))

-- The two colours are read well; the rest is the time's.
pub read_transition_well :
    (c : Stdlib) (t : LedType) (x y : Rgbw) (ds : Bytes)
    → IsDocumented c
    → IsByteColor x
    → IsByteColor y
    → let time = string_to_ulong c ds 0 in
      read_transition c t (color_text t x ∷ color_text t y ∷ ds ∷ []) 0 ≡ record {
        good = if time.good then not (leb time.value min_interval) else false;
        value = record { start = shown t x; stop = shown t y; time = time.value; is_loop = false };
        errno = time.errno;
      }
read_transition_well c t x y ds doc bx by = rw (
  string_to_rgbw-color_text c t x no_color doc bx,
  string_to_rgbw-color_text c t y no_color doc by,
)
