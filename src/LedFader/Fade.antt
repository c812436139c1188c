-- ===== src/LedFader/Fade.antt =====
-- A whole fade, from its start to its end, over updates at true times: a reading of millis() is the true
-- time modulo 2 ^ 32.
use smarthouse_arduino.Base.{
  ℕ, ◌+◌, ◌-◌, ◌%◌, ◌^◌, ◌≤◌, ◌<◌, ◌≡◌, true, false, List, [], ◌∷◌, arith,
}
use smarthouse_arduino.LedFader.{Float, IsFloat, Fader, set_value, stop_fade, update}
use smarthouse_arduino.LedFader.Steps.{Tick}
use smarthouse_arduino.NewButton.Hold.{clock_mod, elapsed-sub}

-- The readings at a true time.
abbrev pub tick_at : ℕ → Tick
tick_at u = record { now = u % clock_mod; later = u % clock_mod }

-- Times in order, not before `t` and below `end`.
abbrev pub Times : ℕ → ℕ → List ℕ → Type 0
Times t end [] = Unit {0}
Times t end (u ∷ us) = (t ≤ u) × (u < end) × Times u end us

abbrev pub last_of : ℕ → List ℕ → ℕ
last_of t [] = t
last_of t (u ∷ us) = last_of u us

module _ {f : Float} (doc : IsFloat f) where
  pub record IsDone (v : ℕ) (l : Fader f) : Type 0 where
    pub arrived : l.color ≡ v
    pub over : l.duration ≡ 0

  -- A fade to `v` that is over at `end` at the latest; its last step was at the true time `last`.
  pub record IsGoing (v end i last : ℕ) (l : Fader f) : Type 0 where
    pub pinned : 0 < l.pin
    pub target : l.to_color ≡ v
    pub byte : v < 256
    pub going : 0 < l.duration
    pub bounded : l.duration < 2 ^ 32
    pub stepped : l.last_step_time ≡ last % clock_mod
    pub remaining : last + l.duration ≡ end
    pub paced : l.interval ≡ i

  pub waits :
      (v end i last u : ℕ) (l : Fader f)
      → IsGoing v end i last l
      → last ≤ u
      → u < last + clock_mod
      → u < last + i
      → (update f (u % clock_mod) (u % clock_mod) l).0 ≡ l
  unfolding update
  waits v end i last u l g h k w =
      ground (arith, g.pinned, g.going, g.stepped, g.paced, elapsed-sub last u h k)

  pub ends :
      (v end i last u : ℕ) (l : Fader f)
      → IsGoing v end i last l
      → last ≤ u
      → u < last + clock_mod
      → last + i ≤ u
      → f.is_full (f.divided (f.of_long (u - last)) (f.of_long l.duration)) ≡ true
      → IsDone v (update f (u % clock_mod) (u % clock_mod) l).0
  unfolding update set_value stop_fade
  ends v end i last u l g h k w full =
      ground
        (arith, g.pinned, g.target, g.byte, g.going, g.stepped, g.paced, elapsed-sub last u h k)

  pub goes :
      (v end i last u : ℕ) (l : Fader f)
      → IsGoing v end i last l
      → last ≤ u
      → u < last + clock_mod
      → last + i ≤ u
      → f.is_full (f.divided (f.of_long (u - last)) (f.of_long l.duration)) ≡ false
      → IsGoing v end i u (update f (u % clock_mod) (u % clock_mod) l).0
  unfolding update set_value stop_fade
  goes v end i last u l g h k w partial = ground (
    arith,
    g.pinned,
    g.target,
    g.byte,
    g.going,
    g.bounded,
    g.stepped,
    g.remaining,
    g.paced,
    elapsed-sub last u h k,
    doc.full (u - last) l.duration,
  )

  pub stays : (v now later : ℕ) (l : Fader f) → IsDone v l → IsDone v (update f now later l).0
  unfolding update
  stays v now later l d = ground (arith, d.arrived, d.over)
