-- ===== src/LightSwitch/Saved.antt =====
-- The limit of the LightSwitchAC sketch across a power cycle.
use smarthouse_arduino.Base.{ℕ, ◌≡◌, refl, ap, List, [], ◌∷◌, ltb, arith, if◌then◌else◌}
use smarthouse_arduino.LightSwitch.Node.{
  dimmer_high, dimmer_max, Eeprom, IsEeprom, LampCallback, on_btn_long_press, on_btn_short_release,
  on_btn_long_release, Node, on_zero_cross_detect, on_timer_dim_check, dimmer_process,
  dimmer_switch, dimmer_level, light_dimmer_convert, eeprom_restore, reset,
}
use smarthouse_arduino.LightSwitch.Range.{
  InRange, call-InRange, dimmer_process-InRange, dimmer-InRange, receive-InRange, step-InRange,
  setup-InRange,
}
use smarthouse_arduino.LightSwitch.Sketch.{
  Incoming, Inputs, Event, message, pass, zero_crossing, timer_tick, call, call_all, setup, receive,
  loop, step, steps, constrained,
}
use smarthouse_arduino.NewButton.{process}

-- The limit that set-up makes of a stored byte.
abbrev pub capped : ℕ → ℕ
capped x = if ltb dimmer_max x then dimmer_max else x

module _ {e : Eeprom} (doc : IsEeprom e) where
  -- Set-up would give the limit, up to DIMMER_MAX.
  record IsSaved (s : Node e) : Type 0 where
    same : capped (e.read s.rom) ≡ capped s.dimmer.limit
    range : InRange e s

  kept-IsSaved :
      (s s' : Node e)
      → s'.rom ≡ s.rom
      → s'.dimmer.limit ≡ s.dimmer.limit
      → InRange e s'
      → IsSaved s
      → IsSaved s'
  kept-IsSaved s s' r l range i = record { same = rw (r, l) i.same; range = range }

  setup-IsSaved : (s : Node e) → IsSaved (setup e s)
  unfolding setup eeprom_restore
  setup-IsSaved s = record { same = ground arith; range = setup-InRange e s }

  call-IsSaved : (f : LampCallback) (s : Node e) → IsSaved s → IsSaved (call e f s)
  unfolding call dimmer_switch dimmer_level
  call-IsSaved on_btn_long_press s i =
      kept-IsSaved s _ refl refl (call-InRange e on_btn_long_press s i.range) i
  call-IsSaved on_btn_short_release s i =
      kept-IsSaved s _ refl refl (call-InRange e on_btn_short_release s i.range) i
  call-IsSaved on_btn_long_release s i = record {
    same = ap capped (doc.read-update s.dimmer.actual s.rom (omega (arith, i.range.actual_le)));
    range = call-InRange e on_btn_long_release s i.range;
  }

  call_all-IsSaved : (fs : List LampCallback) (s : Node e) → IsSaved s → IsSaved (call_all e fs s)
  unfolding call_all
  call_all-IsSaved [] s i = i
  call_all-IsSaved (f ∷ fs) s i = call_all-IsSaved fs (call e f s) (call-IsSaved f s i)

  dimmer_process-IsSaved : (now : ℕ) (s : Node e) → IsSaved s → IsSaved (dimmer_process e now s)
  unfolding dimmer_process
  dimmer_process-IsSaved now s i =
      kept-IsSaved s (dimmer_process e now s) (ground arith) (ground arith)
        (dimmer_process-InRange e now s i.range) i

  loop-IsSaved : (x : Inputs) (s : Node e) → IsSaved s → IsSaved (loop e x s)
  unfolding loop
  loop-IsSaved x s i =
      let faded = dimmer_process e x.now s in
      let (button', calls) = process x.lamp.level x.lamp.now x.lamp.later faded.button in
      let polled : Node e = record faded { button = button' } in
      let h = dimmer_process-IsSaved x.now s i in
      let j = kept-IsSaved faded polled refl refl (dimmer-InRange e faded polled refl h.range) h in
      let k = call_all-IsSaved calls polled j in
      kept-IsSaved (call_all e calls polled) (loop e x s) refl refl
        (dimmer-InRange e (call_all e calls polled) (loop e x s) refl k.range) k

  receive-IsSaved : (m : Incoming) (s : Node e) → IsSaved s → IsSaved (receive e m s)
  unfolding receive dimmer_switch dimmer_level light_dimmer_convert
  receive-IsSaved m s i = record {
    same = ground (arith, i.same, doc.read-update (light_dimmer_convert (constrained m.int)) s.rom);
    range = receive-InRange e m s i.range;
  }

  step-IsSaved : (x : Event) (s : Node e) → IsSaved s → IsSaved (step e x s)
  unfolding step on_zero_cross_detect on_timer_dim_check
  step-IsSaved (message m) s i = receive-IsSaved m s i
  step-IsSaved (pass x) s i = loop-IsSaved x s i
  step-IsSaved zero_crossing s i =
      kept-IsSaved s _ refl refl (step-InRange e zero_crossing s i.range) i
  step-IsSaved timer_tick s i =
      kept-IsSaved s (on_timer_dim_check e s) (ground arith) (ground arith)
        (step-InRange e timer_tick s i.range) i

  steps-IsSaved : (xs : List Event) (s : Node e) → IsSaved s → IsSaved (steps e xs s)
  unfolding steps
  steps-IsSaved [] s i = i
  steps-IsSaved (x ∷ xs) s i = steps-IsSaved xs (step e x s) (step-IsSaved x s i)

  -- With an EEPROM that behaves as documented, after any history from set-up, another set-up gives the
  -- limit as it is, but DIMMER_MAX for a limit above that. The actual and the target level become
  -- DIMMER_HIGH.
  pub power_cycle_limit :
      (xs : List Event) (s : Node e)
      → let s' = steps e xs (setup e s) in
        ((setup e s').dimmer.limit ≡ capped s'.dimmer.limit)
        × ((setup e s').dimmer.actual ≡ dimmer_high)
        × ((setup e s').dimmer.target ≡ dimmer_high)
  unfolding setup eeprom_restore reset
  power_cycle_limit xs s =
      let saved = steps-IsSaved xs (setup e s) (setup-IsSaved s) in (saved.same, refl, refl)
