-- ===== src/Tests/LoggingTests.antt =====
-- Lines of the log with a small formatter, in which every conversion takes the next text.
use smarthouse_arduino.Base.{
  ℕ, ◌+◌, ◌-◌, ◌%◌, ◌/◌, ◌≤◌, ◌≡◌, ◌≢◌, refl, Bool, true, false, List, [], ◌∷◌, ◌++◌, ◌==◌,
  if◌then◌else◌, arith, codes, take, length,
}
use smarthouse_arduino.Logging.{
  Printf, IsPrintf, info, file_name, tag, place, line_end, log_level, log_level_lem,
}

abbrev next_text : List (List ℕ) → List ℕ
next_text [] = []
next_text (t ∷ ts) = t

abbrev other_texts : List (List ℕ) → List (List ℕ)
other_texts [] = []
other_texts (t ∷ ts) = ts

-- Whether a conversion began with the character before.
spell : Bool → List ℕ → List (List ℕ) → List ℕ
spell _ [] ts = []
spell true (c ∷ cs) ts = spell false cs ts
spell false (c ∷ cs) ts =
    let converted = next_text ts ++ spell true cs (other_texts ts) in
    let copied = c ∷ spell false cs ts in if c == b'%' then converted else copied

abbrev two_digits : ℕ → List ℕ
two_digits n = (b'0' + n / 10 % 10) ∷ (b'0' + n % 10) ∷ []

abbrev texts_printf : Printf
texts_printf = record {
  Args = List (List ℕ);
  with_place = λ ts name line. ts ++ (name ∷ (two_digits line ∷ []));
  vsnprintf = λ n format ts. take (n - 1) (spell false format ts);
  formatted = λ format ts. spell false format ts;
}

spell_copies :
    (c : ℕ) (format : List ℕ) (ts : List (List ℕ))
    → c ≢ b'%'
    → spell false (c ∷ format) ts ≡ c ∷ spell false format ts
unfolding spell
spell_copies c format ts h = ground arith

texts_printf-IsPrintf : IsPrintf texts_printf
texts_printf-IsPrintf = record { cut = λ n format ts h. refl; copies = spell_copies }

abbrev path : List ℕ
path = codes "C:\\src\\Kitchen.ino"

name_only : file_name path ≡ codes "Kitchen.ino"
unfolding file_name
name_only = refl

printed_line :
    log_level texts_printf info (codes "Mode %d") (two_digits 7 ∷ []) path 52 []
    ≡ codes "[INFO]  Mode 07 [Kitchen.ino:52]" ++ line_end
unfolding log_level spell
printed_line = refl

log_level_lem_example :
    (log_level texts_printf info (codes "Setup done") [] path 52 []
      ≡ []
        ++ ((tag info
              ++ take 119 (
                  spell false
                    (codes "Setup done" ++ place)
                    (file_name path ∷ (two_digits 52 ∷ []))))
            ++ line_end))
    × (length (
          tag info
          ++ take 119
              (spell false (codes "Setup done" ++ place) (file_name path ∷ (two_digits 52 ∷ []))))
        ≤ 127)
log_level_lem_example = log_level_lem texts_printf-IsPrintf info (codes "Setup done") [] path 52 []
