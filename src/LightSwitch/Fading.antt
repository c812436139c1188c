-- ===== src/LightSwitch/Fading.antt =====
-- How the dimmer of the LightSwitchAC sketch goes from its actual to its target level.
use smarthouse_arduino.Base.{
  ℕ, ◌+◌, ◌-◌, ◌≤◌, ◌<◌, ◌≡◌, refl, List, [], ◌∷◌, length, ◌⊎◌, inl, inr, leb, arith, if◌then◌else◌,
}
use smarthouse_arduino.LightSwitch.Node.{Eeprom, Node, dimmer_process}
use smarthouse_arduino.NewButton.{elapsed}

-- The level `n` steps from `a` on the way to `t`.
abbrev pub toward : ℕ → ℕ → ℕ → ℕ
toward n a t = if leb (a + n) t then a + n else if leb (t + n) a then a - n else t

-- Readings of millis(), each at least the delay after the one before.
abbrev pub Due : ℕ → ℕ → List ℕ → Type 0
Due delay last [] = Unit {0}
Due delay last (now ∷ ns) = (delay ≤ elapsed now last) × Due delay now ns

compare_cases : (a b : ℕ) → (a < b) ⊎ ((a ≡ b) ⊎ (b < a))
compare_cases a b = omega arith

module _ (e : Eeprom) where
  -- Calls of `dimmer_process`.
  unfoldable pub fades : List ℕ → Node e → Node e
  fades [] s = s
  fades (now ∷ ns) s = fades ns (dimmer_process e now s)

  pub process-arrived :
      (now : ℕ) (s : Node e) → s.dimmer.actual ≡ s.dimmer.target → dimmer_process e now s ≡ s
  unfolding dimmer_process
  process-arrived now s h = ground arith

  fades-arrived : (ns : List ℕ) (s : Node e) → s.dimmer.actual ≡ s.dimmer.target → fades ns s ≡ s
  unfolding fades
  fades-arrived [] s h = refl
  fades-arrived (now ∷ ns) s h = rw (process-arrived now s h) (fades-arrived ns s h)

  -- The state after a step.
  abbrev moved : ℕ → ℕ → Node e → Node e
  moved now level s = record s {
    dimmer = record s.dimmer { actual = level };
    dimmer_last_now = now;
  }

  process-up :
      (now : ℕ) (s : Node e)
      → s.dimmer.actual < s.dimmer.target
      → s.dimmer.target < 256
      → s.dimmer.delay ≤ elapsed now s.dimmer_last_now
      → dimmer_process e now s ≡ moved now (s.dimmer.actual + 1) s
  unfolding dimmer_process
  process-up now s l b d = ground arith

  process-down :
      (now : ℕ) (s : Node e)
      → s.dimmer.target < s.dimmer.actual
      → s.dimmer.actual < 256
      → s.dimmer.delay ≤ elapsed now s.dimmer_last_now
      → dimmer_process e now s ≡ moved now (s.dimmer.actual - 1) s
  unfolding dimmer_process
  process-down now s l b d = ground arith

  pub fades-toward :
      (ns : List ℕ) (s : Node e)
      → s.dimmer.actual < 256
      → s.dimmer.target < 256
      → Due s.dimmer.delay s.dimmer_last_now ns
      → (fades ns s).dimmer.actual ≡ toward (length ns) s.dimmer.actual s.dimmer.target
  unfolding fades
  fades-toward [] s a t d = ground arith
  fades-toward (now ∷ ns) s a t (d, ds) = elim (compare_cases s.dimmer.actual s.dimmer.target) [
    | inl l ↦
        rw (fades, process-up now s l t d)
          (let ih = fades-toward ns (moved now (s.dimmer.actual + 1) s) (omega arith) t ds in
            ground (arith, ih, l))
    | inr (inl h) ↦ rw (fades-arrived (now ∷ ns) s h) (ground (arith, h))
    | inr (inr l) ↦
        rw (fades, process-down now s l a d)
          (let ih = fades-toward ns (moved now (s.dimmer.actual - 1) s) (omega arith) t ds in
            ground (arith, ih, l))
  ]
