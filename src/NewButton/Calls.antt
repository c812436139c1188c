-- ===== src/NewButton/Calls.antt =====
-- The calls of a press, by the press statuses that it goes through.
use mathlib.Core.List.{append-nil}
use smarthouse_arduino.Base.{ℕ, ◌≤◌, ◌≡◌, ◌⊎◌, refl, inl, inr, List, [], ◌++◌, arith}
use smarthouse_arduino.NewButton.{
  Status, idle, short, long, short_press, long_press, short_release, long_release, NewButton,
  Callbacks, fire, on_release, on_change,
}
use smarthouse_arduino.NewButton.Hold.{classify}

abbrev pub Above : Status → Status → Type 0
Above idle _ = Unit {0}
Above short idle = ⊥
Above short _ = Unit {0}
Above long long = Unit {0}
Above long _ = ⊥

module _ {A : Type 0} where
  -- The calls of a press status that goes up from one status to another. A poll that comes late may go
  -- from idle to long at once.
  abbrev pub Rises : Callbacks A → Status → Status → List A → Type 0
  Rises c idle idle calls = calls ≡ []
  Rises c idle short calls = calls ≡ fire short_press c
  Rises c idle long calls =
      (calls ≡ fire long_press c) ⊎ (calls ≡ fire short_press c ++ fire long_press c)
  Rises c short short calls = calls ≡ []
  Rises c short long calls = calls ≡ fire long_press c
  Rises c long long calls = calls ≡ []
  Rises c _ _ calls = ⊥

  pub Rises-refl : (c : Callbacks A) (s : Status) → Rises c s s []
  Rises-refl c idle = refl
  Rises-refl c _ = refl

  pub Rises-step :
      (c : Callbacks A) (s t u : Status) (calls : List A)
      → Above s t
      → Rises c t u calls
      → Rises c s u (on_change s t c ++ calls)
  Rises-step c idle idle u calls a r = r
  Rises-step c idle short short calls a r = rw r (append-nil _)
  Rises-step c idle short long calls a r = inr (rw r)
  Rises-step c idle short idle calls a r = absurd r
  Rises-step c idle long long calls a r = inl (rw r (append-nil _))
  Rises-step c idle long short calls a r = absurd r
  Rises-step c idle long idle calls a r = absurd r
  Rises-step c short short u calls a r = r
  Rises-step c short long long calls a r = rw r (append-nil _)
  Rises-step c short long short calls a r = absurd r
  Rises-step c short long idle calls a r = absurd r
  Rises-step c short idle u calls a r = absurd a
  Rises-step c long long u calls a r = r
  Rises-step c long short u calls a r = absurd a
  Rises-step c long idle u calls a r = absurd a

  pub classify-Above :
      (b : NewButton A) (d d' : ℕ)
      → b.short_press_time ≤ b.long_press_time
      → d ≤ d'
      → Above (classify b d) (classify b d')
  classify-Above b d d' o h = ground arith

  -- What a press calls, by the press status at its last poll before the release.
  abbrev pub PressCalls : Callbacks A → Status → List A → Type 0
  PressCalls c idle calls = calls ≡ []
  PressCalls c short calls = calls ≡ fire short_press c ++ fire short_release c
  PressCalls c long calls =
      (calls ≡ fire long_press c ++ fire long_release c)
      ⊎ (calls ≡ (fire short_press c ++ fire long_press c) ++ fire long_release c)

  pub Rises-release :
      (c : Callbacks A) (s : Status) (calls : List A)
      → Rises c idle s calls
      → PressCalls c s (calls ++ on_release s c)
  Rises-release c idle calls r = rw r
  Rises-release c short calls r = rw r
  Rises-release c long calls (inl r) = inl (rw r)
  Rises-release c long calls (inr r) = inr (rw r)
