-- ===== src/LightSwitch/Levels.antt =====
-- The light levels that the LightSwitchAC sketch is told and reports: 100 less the dimmer's level.
use smarthouse_arduino.Base.{ℕ, ◌-◌, ◌≤◌, ◌≡◌, ◌↔◌, refl, ◌∷◌, arith}
use smarthouse_arduino.LightSwitch.Node.{
  dimmer_max, Eeprom, IsEeprom, Node, light_status, light_level, dimmer_level, light_dimmer_convert,
}
use smarthouse_arduino.LightSwitch.Range.{InRange}
use smarthouse_arduino.LightSwitch.Sketch.{
  Incoming, ms_lamp_id, v_light_level, constrained, receive, long_release_handler,
}

convert_lem : (x : ℕ) → x ≤ dimmer_max → light_dimmer_convert x ≡ dimmer_max - x
unfolding light_dimmer_convert
convert_lem x h = omega (arith, h)

module _ {e : Eeprom} (doc : IsEeprom e) where
  constrained_le : (x : ℕ) → constrained x ≤ dimmer_max
  constrained_le x = ground arith

  -- With an EEPROM that behaves as documented, a V_LIGHT_LEVEL message to the lamp sets the limit and
  -- the target to 100 less the received number, which is first cut to 0 and 100; the EEPROM holds that
  -- limit, and the cut number comes back to the controller.
  pub receive_level :
      (m : Incoming) (s : Node e)
      → m.sensor ≡ ms_lamp_id
      → m.type ≡ v_light_level
      → let s' = receive e m s in
        (s'.dimmer.limit ≡ dimmer_max - constrained m.int)
        × (s'.dimmer.target ≡ dimmer_max - constrained m.int)
        × (e.read s'.rom ≡ dimmer_max - constrained m.int)
        × (s'.sent ≡ light_status 1 ∷ (light_level (constrained m.int) ∷ s.sent))
  unfolding receive dimmer_level
  receive_level m s sensor type =
      let x = constrained m.int in
      let h = constrained_le m.int in
      let back : light_dimmer_convert (dimmer_max - x) ≡ x =
        omega (arith, h, convert_lem (dimmer_max - x)) in
      rw (sensor, type, convert_lem x h, back)
        (refl, refl, doc.read-update (dimmer_max - x) s.rom (omega arith), refl)

module _ {e : Eeprom} where
  -- At levels of at most DIMMER_HIGH, the end of a long press stores the level as the limit and reports
  -- a light level, which is at most 100 exactly if the dimmer is at most at DIMMER_MAX.
  pub long_release_reports :
      (s : Node e)
      → InRange e s
      → let s' = long_release_handler e s in
        (s'.dimmer.limit ≡ s.dimmer.actual)
        × ((level : ℕ) × (s'.sent ≡ light_status 1 ∷ (light_level level ∷ s.sent))
            × ((level ≤ 100) ↔ (s.dimmer.actual ≤ dimmer_max)))
  unfolding long_release_handler dimmer_level light_dimmer_convert
  long_release_reports s i =
      (refl, (light_dimmer_convert s.dimmer.actual, refl, ground (arith, i.actual_le)))
