-- ===== src/Motion/Reports.antt =====
-- What the MotionLightWithRelay sketch reports over passes of its main loop.
use smarthouse_arduino.Base.{
  ℕ, ◌-◌, ◌≡◌, refl, ◌∙◌, Bool, true, false, List, [], ◌∷◌, map, ◌==◌, arith, if◌then◌else◌,
}
use smarthouse_arduino.Motion.{
  Platform, Sent, motion, light, relay, Inputs, Node, loop, movement_sensor_process,
  light_level_process, button_process,
}

abbrev differs : Bool → Bool → Bool
differs true true = false
differs false false = false
differs _ _ = true

-- The values that differ from the one before, the newest first, in front of what is there.
abbrev pub changes : Bool → List Bool → List Bool → List Bool
changes before [] acc = acc
changes before (x ∷ xs) acc = changes x xs (if differs before x then x ∷ acc else acc)

abbrev pub level_changes : ℕ → List ℕ → List ℕ → List ℕ
level_changes before [] acc = acc
level_changes before (x ∷ xs) acc = level_changes x xs (if x == before then acc else x ∷ acc)

-- The motion reports, and the light reports, among messages.
abbrev pub motions : List Sent → List Bool
motions [] = []
motions (motion x ∷ ms) = x ∷ motions ms
motions (light x ∷ ms) = motions ms
motions (relay x ∷ ms) = motions ms

abbrev pub lights : List Sent → List ℕ
lights [] = []
lights (light x ∷ ms) = x ∷ lights ms
lights (motion x ∷ ms) = lights ms
lights (relay x ∷ ms) = lights ms

module _ (p : Platform) where
  unfoldable pub loops : List Inputs → Node p → Node p
  loops [] s = s
  loops (i ∷ is) s = loops is (loop p i s)

  abbrev pub level : Inputs → ℕ
  level i = p.divided (1023 - i.analog)

  loop-motions :
      (i : Inputs) (s : Node p)
      → ((loop p i s).movement_detected ≡ i.movement)
        × (motions (loop p i s).sent ≡ (
            if differs s.movement_detected i.movement
            then i.movement ∷ motions s.sent
            else motions s.sent))
  unfolding loop movement_sensor_process light_level_process button_process
  loop-motions i s = ground arith

  loop-lights :
      (i : Inputs) (s : Node p)
      → ((loop p i s).light_level ≡ level i)
        × (lights (loop p i s).sent
            ≡ (if level i == s.light_level then lights s.sent else level i ∷ lights s.sent))
  unfolding loop movement_sensor_process light_level_process button_process
  loop-lights i s = ground arith

  -- Over any passes of the main loop, the motion reports are the readings of the motion pin that differ
  -- from the one before, and the light reports are the light levels that do, in their order.
  pub loops-changes :
      (is : List Inputs) (s : Node p)
      → (motions (loops is s).sent
          ≡ changes s.movement_detected (map (λ i. i.movement) is) (motions s.sent))
        × (lights (loops is s).sent ≡ level_changes s.light_level (map level is) (lights s.sent))
  unfolding loops
  loops-changes [] s = (refl, refl)
  loops-changes (i ∷ is) s =
      let (m, ms) = loop-motions i s in
      let (l, ls) = loop-lights i s in
      let (h, h') = loops-changes is (loop p i s) in (h ∙ rw (m, ms) refl, h' ∙ rw (l, ls) refl)
