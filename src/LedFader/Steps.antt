-- ===== src/LedFader/Steps.antt =====
-- One `update` of a fader, and the levels that a fade passes through.
use smarthouse_arduino.Base.{
  ℕ, ◌-◌, ◌≤◌, ◌<◌, ◌≡◌, false, List, [], ◌∷◌, arith, pos, ◌+ℤ◌, sub_ℕ, dec_lt,
}
use smarthouse_arduino.LedFader.{
  Float, IsFloat, Fader, constrained, set_value, stop_fade, fade, update,
}
use smarthouse_arduino.NewButton.{elapsed}

-- The readings of millis() of an `update`.
pub record Tick : Type 0 where
  pub now : ℕ
  pub later : ℕ

module _ {f : Float} (doc : IsFloat f) where
  -- The level, and the target of a fade that goes on, lie in a range of bytes.
  pub record IsWithin (lo hi : ℕ) (l : Fader f) : Type 0 where
    pub byte : hi < 256
    pub lo_le : lo ≤ l.color
    pub le_hi : l.color ≤ hi
    pub lo_le_target : 0 < l.duration → lo ≤ l.to_color
    pub target_le_hi : 0 < l.duration → l.to_color ≤ hi

  abbrev pub percent : ℕ → Fader f → f.F
  percent now l = f.divided (f.of_long (elapsed now l.last_step_time)) (f.of_long l.duration)

  -- A step below 100% does not pass the target.
  step_between :
      (a b t d lo hi : ℕ)
      → hi < 256
      → lo ≤ a
      → a ≤ hi
      → lo ≤ b
      → b ≤ hi
      → f.is_full (f.divided (f.of_long t) (f.of_long d)) ≡ false
      → let c =
          constrained (pos a +ℤ f.share (sub_ℕ b a) (f.divided (f.of_long t) (f.of_long d))) in
        (lo ≤ c) × (c ≤ hi)
  unfolding ◌+ℤ◌
  step_between a b t d lo hi byte la ah lb bh partial = elim (dec_lt b a) [
    | yes down ↦ ground (arith, doc.share_down (a - b - 1) t d partial)
    | no up ↦ ground (arith, doc.share_up (b - a) t d partial)
  ]

  update-IsWithin :
      (lo hi now later : ℕ) (l : Fader f)
      → IsWithin lo hi l
      → IsWithin lo hi (update f now later l).0
  unfolding update set_value stop_fade
  update-IsWithin lo hi now later l i = ground (
    arith,
    i.byte,
    i.lo_le,
    i.le_hi,
    i.lo_le_target,
    i.target_le_hi,
    step_between l.color l.to_color (elapsed now l.last_step_time) l.duration lo hi i.byte,
  )

  unfoldable pub updates : List Tick → Fader f → Fader f
  updates [] l = l
  updates (t ∷ ts) l = updates ts (update f t.now t.later l).0

  updates-IsWithin :
      (lo hi : ℕ) (ts : List Tick) (l : Fader f) → IsWithin lo hi l → IsWithin lo hi (updates ts l)
  unfolding updates
  updates-IsWithin lo hi [] l i = i
  updates-IsWithin lo hi (t ∷ ts) l i =
      updates-IsWithin lo hi ts (update f t.now t.later l).0
        (update-IsWithin lo hi t.now t.later l i)

  fade-IsWithin :
      (lo hi now value time : ℕ) (l : Fader f)
      → hi < 256
      → lo ≤ l.color
      → l.color ≤ hi
      → lo ≤ value
      → value ≤ hi
      → IsWithin lo hi (fade f now value time l)
  unfolding fade set_value stop_fade
  fade-IsWithin lo hi now value time l byte a b c d = ground arith

  -- With the documented arithmetic of `float`, the level of a LED that fades stays between the level where
  -- the fade began and the level that it goes to, at whatever times it is updated. Both are bytes.
  pub updates-between :
      (lo hi now value time : ℕ) (ts : List Tick) (l : Fader f)
      → hi < 256
      → lo ≤ l.color
      → l.color ≤ hi
      → lo ≤ value
      → value ≤ hi
      → let l' = updates ts (fade f now value time l) in (lo ≤ l'.color) × (l'.color ≤ hi)
  updates-between lo hi now value time ts l byte a b c d =
      let i =
        updates-IsWithin lo hi ts (fade f now value time l)
          (fade-IsWithin lo hi now value time l byte a b c d) in
      (i.lo_le, i.le_hi)
