-- ===== src/LightSwitch/Firing.antt =====
-- When the triac of the LightSwitchAC sketch is switched on within a half-wave of the mains.
use smarthouse_arduino.Base.{
  ℕ, zero, suc, ◌+◌, ◌-◌, ◌≤◌, ◌≡◌, refl, true, false, ◌&&◌, ltb, leb, arith, dec_lt,
}
use smarthouse_arduino.LightSwitch.Node.{
  dimmer_max, Eeprom, Node, on_zero_cross_detect, on_timer_dim_check,
}

module _ (e : Eeprom) where
  -- Ticks of the timer, 75 microseconds apart.
  unfoldable pub ticks : ℕ → Node e → Node e
  ticks zero s = s
  ticks (suc n) s = ticks n (on_timer_dim_check e s)

  -- Ticks after the triac was switched on, or at a level that never switches it.
  ticks-done :
      (n : ℕ) (s : Node e)
      → (s.zero_cross && leb dimmer_max s.dimmer.actual) ≡ false
      → ticks n s ≡ s
  unfolding ticks on_timer_dim_check
  ticks-done zero s h = refl
  ticks-done (suc n) s h = rw h (ticks-done n s h)

  ticks-armed :
      (n : ℕ) (s : Node e)
      → s.zero_cross ≡ true
      → dimmer_max ≤ s.dimmer.actual
      → s.step_counter ≤ s.dimmer.actual
      → s.output_ac ≡ false
      → (ticks n s).output_ac ≡ ltb (s.dimmer.actual - s.step_counter) n
  unfolding ticks on_timer_dim_check
  ticks-armed zero s z m c o = ground (arith, o)
  ticks-armed (suc n) s z m c o =
      let fired : Node e = record s { output_ac = true; step_counter = 0; zero_cross = false } in
      let waits : Node e = record s { step_counter = s.step_counter + 1 } in
      ground (arith, z, m, c, o, ticks-done n fired refl, ticks-armed n waits z m)

  -- `n` ticks of the timer after a zero crossing, the triac is on if and only if the level is at least
  -- DIMMER_MAX and less than `n`. A level below DIMMER_MAX never switches it on.
  pub ticks-on_zero_cross_detect :
      (n : ℕ) (s : Node e)
      → (ticks n (on_zero_cross_detect e s)).output_ac
        ≡ (leb dimmer_max s.dimmer.actual && ltb s.dimmer.actual n)
  unfolding on_zero_cross_detect
  ticks-on_zero_cross_detect n s =
      let crossed : Node e = record s { zero_cross = true; step_counter = 0; output_ac = false } in
      elim (dec_lt s.dimmer.actual dimmer_max) [
        | yes h ↦ ground (arith, h, ticks-done n crossed)
        | no h ↦ ground (arith, h, ticks-armed n crossed refl)
      ]
