-- ===== src/NewButton/Hold.antt =====
-- One poll of a button that is pressed, held or released, at true times: a reading of millis() is the
-- true time modulo 2 ^ 32.
use smarthouse_arduino.Base.{
  ℕ, ◌+◌, ◌-◌, ◌%◌, ◌^◌, ◌≤◌, ◌<◌, ◌≡◌, true, false, arith, leb, if◌then◌else◌,
}
use smarthouse_arduino.NewButton.{
  Status, idle, short, long, NewButton, elapsed, process, on_release, on_change,
}

abbrev pub clock_mod : ℕ
clock_mod = 2 ^ 32

-- The difference of two readings is the true duration, across a wrap of the counter too.
pub elapsed-sub :
    (from to : ℕ)
    → from ≤ to
    → to < from + clock_mod
    → elapsed (to % clock_mod) (from % clock_mod) ≡ to - from
elapsed-sub from to h l = omega arith

module _ {A : Type 0} where
  -- The press status that a hold of `d` milliseconds has.
  abbrev pub classify : NewButton A → ℕ → Status
  classify b d =
      if leb b.long_press_time d then long else if leb b.short_press_time d then short else idle

  -- The configuration, which no poll changes.
  pub record Agrees (b b' : NewButton A) : Type 0 where
    pub same_short : b'.short_press_time ≡ b.short_press_time
    pub same_long : b'.long_press_time ≡ b.long_press_time
    pub same_callbacks : b'.callbacks ≡ b.callbacks

  pub record IsIdle (b : NewButton A) : Type 0 where
    pub released : b.prev_status ≡ false
    pub no_time : b.pressed_time ≡ 0
    pub idle_status : b.press_status ≡ idle
    pub idle_before : b.prev_press_status ≡ idle

  -- Pressed since the true time `from`, and last seen `d` milliseconds later.
  pub record IsHeld (b : NewButton A) (from d : ℕ) : Type 0 where
    pub pressed : b.prev_status ≡ true
    pub since : b.pressed_time ≡ from % clock_mod
    pub nonzero : 0 < from % clock_mod
    pub status : b.press_status ≡ classify b d
    pub status_before : b.prev_press_status ≡ classify b d

  pub press_lem :
      (b : NewButton A) (from to : ℕ)
      → IsIdle b
      → 0 < from % clock_mod
      → from ≤ to
      → to < from + clock_mod
      → let (b', calls) = process true (from % clock_mod) (to % clock_mod) b in
        IsHeld b' from (to - from)
        × Agrees b b'
        × (calls ≡ on_change idle (classify b (to - from)) b.callbacks)
  unfolding process
  press_lem b from to i p h l = ground (arith, elapsed-sub from to h l)

  pub held_lem :
      (b : NewButton A) (from d now to : ℕ)
      → IsHeld b from d
      → b.short_press_time ≤ b.long_press_time
      → from + d ≤ to
      → to < from + clock_mod
      → let (b', calls) = process true now (to % clock_mod) b in
        IsHeld b' from (to - from)
        × Agrees b b'
        × (calls ≡ on_change (classify b d) (classify b (to - from)) b.callbacks)
  unfolding process
  held_lem b from d now to i o h l = ground (arith, elapsed-sub from to)

  pub release_lem :
      (b : NewButton A) (from d now later : ℕ)
      → IsHeld b from d
      → let (b', calls) = process false now later b in
        IsIdle b' × Agrees b b' × (calls ≡ on_release (classify b d) b.callbacks)
  unfolding process
  release_lem b from d now later i = ground arith
