-- ===== src/LedFader/Completion.antt =====
-- The end of a fade.
use smarthouse_arduino.Base.{
  ℕ, ◌+◌, ◌-◌, ◌%◌, ◌^◌, ◌≤◌, ◌<◌, ◌≡◌, ◌≢◌, ◌⊎◌, inl, inr, false, List, [], ◌∷◌, map, arith,
  Bool-cases, dec_lt, ℕ_discrete,
}
use smarthouse_arduino.LedFader.{
  Float, IsFloat, Fader, set_value, stop_fade, fade, update, is_fading, get_value, IsReady,
  min_interval, distance,
}
use smarthouse_arduino.LedFader.Fade.{
  tick_at, Times, last_of, IsDone, IsGoing, waits, ends, goes, stays,
}
use smarthouse_arduino.LedFader.Steps.{Tick, updates}
use smarthouse_arduino.NewButton.Hold.{clock_mod}

module _ {f : Float} (doc : IsFloat f) where
  -- At the true time `u` the fade is over, or its last step is less than an interval ago.
  abbrev IsOnTime : (v end i from u : ℕ) → Fader f → Type 0
  IsOnTime v end i from u l =
      IsDone doc v l
      ⊎ ((last : ℕ) × (from ≤ last) × (last ≤ u) × (u < last + i) × IsGoing doc v end i last l)

  update-IsOnTime :
      (v end i from t u : ℕ) (l : Fader f)
      → 0 < i
      → t ≤ u
      → u < from + clock_mod
      → IsOnTime v end i from t l
      → IsOnTime v end i from u (update f (u % clock_mod) (u % clock_mod) l).0
  update-IsOnTime v end i from t u l p h k (inl d) = inl (stays doc v _ _ l d)
  update-IsOnTime v end i from t u l p h k (inr (last, a, b, c, g)) = elim (dec_lt u (last + i)) [
    | yes w ↦
        inr (
          last,
          a,
          omega arith,
          w,
          rw (waits doc v end i last u l g (omega arith) (omega arith) w) g,
        )
    | no w ↦
        elim (Bool-cases (f.is_full (f.divided (f.of_long (u - last)) (f.of_long l.duration)))) [
          | inl full ↦
              inl (ends doc v end i last u l g (omega arith) (omega arith) (omega arith) full)
          | inr partial ↦ inr (
            u,
            omega arith,
            omega arith,
            omega arith,
            goes doc v end i last u l g (omega arith) (omega arith) (omega arith) partial,
          )
        ]
  ]

  updates-IsOnTime :
      (v end i from t : ℕ) (us : List ℕ) (l : Fader f)
      → 0 < i
      → Times t (from + clock_mod) us
      → IsOnTime v end i from t l
      → IsOnTime v end i from (last_of t us) (updates doc (map tick_at us) l)
  unfolding updates
  updates-IsOnTime v end i from t [] l p h o = o
  updates-IsOnTime v end i from t (u ∷ us) l p (a, b, rest) o =
      updates-IsOnTime v end i from u us (update f (u % clock_mod) (u % clock_mod) l).0 p rest
        (update-IsOnTime v end i from t u l p a b o)

  abbrev pub begun : ℕ → ℕ → ℕ → Fader f → Fader f
  begun start v time l = fade f (start % clock_mod) v time l

  begun-IsDone :
      (start v time : ℕ) (l : Fader f)
      → IsReady f l
      → v < 256
      → (v ≡ l.color) ⊎ (time ≤ min_interval)
      → IsDone doc v (begun start v time l)
  unfolding fade set_value stop_fade
  begun-IsDone start v time l r byte h = ground (arith, r.pinned, r.color_byte)

  begun-IsGoing :
      (start v time : ℕ) (l : Fader f)
      → IsReady f l
      → v < 256
      → time < 2 ^ 32
      → v ≢ l.color
      → min_interval < time
      → IsGoing doc v (start + time) (begun start v time l).interval start (begun start v time l)
        × (min_interval ≤ (begun start v time l).interval)
  unfolding fade set_value stop_fade
  begun-IsGoing start v time l r byte short other long = ground (arith, r.pinned)

  -- What a fade is at its start.
  begun-cases :
      (start v time : ℕ) (l : Fader f)
      → IsReady f l
      → v < 256
      → time < 2 ^ 32
      → IsDone doc v (begun start v time l)
        ⊎ (IsGoing doc v (start + time) (begun start v time l).interval start (begun start v time l)
            × (min_interval ≤ (begun start v time l).interval))
  begun-cases start v time l r byte short = elim (ℕ_discrete v l.color) [
    | yes same ↦ inl (begun-IsDone start v time l r byte (inl same))
    | no other ↦ elim (dec_lt min_interval time) [
      | no brief ↦ inl (begun-IsDone start v time l r byte (inr (omega arith)))
      | yes long ↦ inr (begun-IsGoing start v time l r byte short other long)
    ]
  ]

  updates-IsDone :
      (v : ℕ) (ts : List Tick) (l : Fader f) → IsDone doc v l → IsDone doc v (updates doc ts l)
  unfolding updates
  updates-IsDone v [] l d = d
  updates-IsDone v (t ∷ ts) l d =
      updates-IsDone v ts (update f t.now t.later l).0 (stays doc v t.now t.later l d)

  late-IsDone :
      (v end i from u : ℕ) (l : Fader f) → end + i ≤ u → IsOnTime v end i from u l → IsDone doc v l
  late-IsDone v end i from u l late (inl d) = d
  late-IsDone v end i from u l late (inr (last, a, b, c, g)) =
      absurd (omega (arith, late, c, g.remaining))

  pub is_fading-IsDone : (v : ℕ) (l : Fader f) → IsDone doc v l → is_fading f l ≡ false
  unfolding is_fading
  is_fading-IsDone v l d = ground (arith, d.over)

  -- A fade that was begun takes steps of at most its time.
  pub begun_interval :
      (start v time : ℕ) (l : Fader f)
      → v < 256
      → time < 2 ^ 24
      → 0 < (begun start v time l).duration
      → (begun start v time l).interval ≤ time
  unfolding fade set_value stop_fade
  begun_interval start v time l byte small going =
      ground (arith, going, doc.round_le time (distance l.color v))

  -- The end of a fade that is over at once, or whose last update is late enough.
  pub fade_done :
      (start v time : ℕ) (us : List ℕ) (l : Fader f)
      → IsReady f l
      → v < 256
      → time < 2 ^ 32
      → Times start (start + clock_mod) us
      → (0 < (begun start v time l).duration
          → start + time + (begun start v time l).interval ≤ last_of start us)
      → IsDone doc v (updates doc (map tick_at us) (begun start v time l))
  fade_done start v time us l r byte short times late =
      elim (begun-cases start v time l r byte short)
        as (λ x. IsDone doc v (updates doc (map tick_at us) (begun start v time l))) [
          | inl d ↦ updates-IsDone v (map tick_at us) (begun start v time l) d
          | inr (g, p) ↦
              let i = (begun start v time l).interval in
              late-IsDone v (start + time) i start (last_of start us) _ (late g.going) (
                updates-IsOnTime v (start + time) i start start us (begun start v time l)
                  (omega arith) times (inr (start, omega arith, omega arith, omega arith, g)))
        ]

  -- With the documented arithmetic of `float`: a fade of `time` milliseconds to a byte `v`, updated at any
  -- times in order that are less than 2 ^ 32 milliseconds after its start, the last of them at least
  -- `time` and one interval after it, ends: the LED is at `v` and no longer fades.
  pub fade_completes :
      (start v time : ℕ) (us : List ℕ) (l : Fader f)
      → IsReady f l
      → v < 256
      → time < 2 ^ 32
      → Times start (start + clock_mod) us
      → start + time + (fade f (start % clock_mod) v time l).interval ≤ last_of start us
      → let l' = updates doc (map tick_at us) (fade f (start % clock_mod) v time l) in
        (get_value f l' ≡ v) × (is_fading f l' ≡ false)
  unfolding get_value
  fade_completes start v time us l r byte short times late =
      let d = fade_done start v time us l r byte short times (λ _. late) in
      (d.arrived, is_fading-IsDone v _ d)
