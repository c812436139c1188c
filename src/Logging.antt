-- ===== src/Logging.antt =====
-- libraries/Logging: a line of the log over the serial port.
use smarthouse_arduino.Base.{
  ℕ, ◌+◌, ◌-◌, ◌≤◌, ◌<◌, ◌≡◌, ◌≢◌, refl, sym, ap, ◌∙◌, Option, none, some, List, [], ◌∷◌, ◌++◌,
  ◌==◌, if◌then◌else◌, arith, codes, take, length, length-append, length-take, take-append,
}

-- `vsnprintf_P size format args` is the text, less the zero behind it, that it leaves in a buffer of
-- `size` bytes, and `formatted` the text before it is cut. Texts are lists of characters; `with_place` adds a file name and a line number behind
-- the arguments.
pub record Printf : Type 1 where
  pub Args : Type 0
  pub with_place : Args → List ℕ → ℕ → Args
  pub vsnprintf : ℕ → List ℕ → Args → List ℕ
  pub formatted : List ℕ → Args → List ℕ

-- What the C standard says: the formatted text is cut to the buffer, and the characters of the format
-- in front of a conversion are copied.
pub record IsPrintf (p : Printf) : Type 0 where
  pub cut :
      (size : ℕ) (format : List ℕ) (args : p.Args)
      → 0 < size
      → p.vsnprintf size format args ≡ take (size - 1) (p.formatted format args)
  pub copies :
      (c : ℕ) (format : List ℕ) (args : p.Args)
      → c ≢ b'%'
      → p.formatted (c ∷ format) args ≡ c ∷ p.formatted format args

-- `char buf[128]`
abbrev pub buffer_size : ℕ
buffer_size = 128

-- `strrchr(path, c) + 1`, or `none` for NULL.
unfoldable pub after_last : ℕ → List ℕ → Option (List ℕ)
after_last c [] = none
after_last c (x ∷ xs) = elim (after_last c xs) [
  | some rest ↦ some rest
  | none ↦ if x == c then some xs else none
]

-- `__FILENAME__`
unfoldable pub file_name : List ℕ → List ℕ
unfolding after_last
file_name path = elim (after_last b'\\' path) [ some name ↦ name | none ↦ path ]

-- The macros LOG_DEBUG, LOG_INFO, LOG_WARN and LOG_ERROR.
pub data Level : Type 0 where
  debug info warn error : Level

abbrev pub tag : Level → List ℕ
tag debug = codes "[DEBUG] "
tag info = codes "[INFO]  "
tag warn = codes "[WARN] "
tag error = codes "[ERROR] "

abbrev pub place : List ℕ
place = codes " [%s:%d]"

abbrev pub line_end : List ℕ
line_end = 13 ∷ (10 ∷ [])

module _ (p : Printf) where
  -- `serial` is what went out; `println` adds CR and LF.
  unfoldable pub log : List ℕ → p.Args → List ℕ → List ℕ
  log format args serial = serial ++ (p.vsnprintf buffer_size format args ++ line_end)

  unfoldable pub log_level : Level → List ℕ → p.Args → List ℕ → ℕ → List ℕ → List ℕ
  unfolding log file_name
  log_level level message args path line serial =
      log (tag level ++ (message ++ place)) (p.with_place args (file_name path) line) serial

-- The tags have no conversion.
abbrev IsPlain : List ℕ → Type 0
IsPlain [] = Unit {0}
IsPlain (c ∷ cs) = (c ≢ b'%') × IsPlain cs

tag-IsPlain : (l : Level) → IsPlain (tag l)
tag-IsPlain debug = ground arith
tag-IsPlain info = ground arith
tag-IsPlain warn = ground arith
tag-IsPlain error = ground arith

length-tag : (l : Level) → length (tag l) ≤ 8
length-tag debug = omega arith
length-tag info = omega arith
length-tag warn = omega arith
length-tag error = omega arith

module _ {p : Printf} (doc : IsPrintf p) where
  formatted-append :
      (cs format : List ℕ) (args : p.Args)
      → IsPlain cs
      → p.formatted (cs ++ format) args ≡ cs ++ p.formatted format args
  formatted-append [] format args h = refl
  formatted-append (c ∷ cs) format args (h, hs) =
      doc.copies c (cs ++ format) args h ∙ ap (◌∷◌ c) (formatted-append cs format args hs)

  -- With a `vsnprintf_P` that behaves as documented: every line of the log begins with the whole tag of
  -- its level and goes on with the message and the place in the source, formatted and cut so that the
  -- line has at most 127 characters, and CR and LF end it.
  pub log_level_lem :
      (l : Level) (message : List ℕ) (args : p.Args) (path : List ℕ) (line : ℕ) (serial : List ℕ)
      → let text = p.formatted (message ++ place) (p.with_place args (file_name path) line) in
        let printed = tag l ++ take (127 - length (tag l)) text in
        (log_level p l message args path line serial ≡ serial ++ (printed ++ line_end))
        × (length printed ≤ 127)
  unfolding log_level
  log_level_lem l message args path line serial =
      let args' = p.with_place args (file_name path) line in
      let text = p.formatted (message ++ place) args' in
      let room : length (tag l) + (127 - length (tag l)) ≡ 127 = omega (arith, length-tag l) in
      let whole : p.formatted (tag l ++ (message ++ place)) args' ≡ tag l ++ text =
        formatted-append (tag l) (message ++ place) args' (tag-IsPlain l) in
      let printed : p.vsnprintf buffer_size (tag l ++ (message ++ place)) args'
          ≡ tag l ++ take (127 - length (tag l)) text =
        doc.cut buffer_size (tag l ++ (message ++ place)) args' (omega arith)
        ∙ ap (take 127) whole
        ∙ ap (λ n. take n (tag l ++ text)) (sym room)
        ∙ take-append (tag l) text (127 - length (tag l)) in
      (
        ap (λ t. serial ++ (t ++ line_end)) printed,
        omega (
          arith,
          length-append (tag l) (take (127 - length (tag l)) text),
          length-take (127 - length (tag l)) text,
          length-tag l,
        ),
      )
