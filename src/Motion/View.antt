-- ===== src/Motion/View.antt =====
-- What the controller knows of a MotionLightWithRelay node: its newest reports.
use smarthouse_arduino.Base.{ℕ, ◌≡◌, refl, ◌∙◌, Bool, false, List, [], ◌∷◌, arith}
use smarthouse_arduino.Motion.{
  Platform, Incoming, Sent, motion, light, relay, Inputs, Node, setup, reset, loop, receive,
  on_send_timer, movement_sensor_process, light_level_process, button_process, Event, message, pass,
  timer, step, steps,
}
use smarthouse_arduino.Motion.Reports.{level}

-- The newest report of each kind; before any, no motion and level 0.
abbrev pub newest_motion : List Sent → Bool
newest_motion [] = false
newest_motion (motion x ∷ ms) = x
newest_motion (light x ∷ ms) = newest_motion ms
newest_motion (relay x ∷ ms) = newest_motion ms

abbrev pub newest_light : List Sent → ℕ
newest_light [] = 0
newest_light (motion x ∷ ms) = newest_light ms
newest_light (light x ∷ ms) = x
newest_light (relay x ∷ ms) = newest_light ms

module _ (p : Platform) where
  -- The last reading of the motion pin and of the light level in a history.
  abbrev pub last_movement : Bool → List Event → Bool
  last_movement x [] = x
  last_movement x (message m ∷ es) = last_movement x es
  last_movement x (pass i ∷ es) = last_movement i.movement es
  last_movement x (timer ∷ es) = last_movement x es

  abbrev pub last_level : ℕ → List Event → ℕ
  last_level x [] = x
  last_level x (message m ∷ es) = last_level x es
  last_level x (pass i ∷ es) = last_level (level p i) es
  last_level x (timer ∷ es) = last_level x es

  record IsShown (s : Node p) : Type 0 where
    motion_shown : newest_motion s.sent ≡ s.movement_detected
    light_shown : newest_light s.sent ≡ s.light_level

  loop-IsShown : (i : Inputs) (s : Node p) → IsShown s → IsShown (loop p i s)
  unfolding loop movement_sensor_process light_level_process button_process
  loop-IsShown i s k = ground (arith, k.motion_shown, k.light_shown)

  receive-IsShown : (m : Incoming) (s : Node p) → IsShown s → IsShown (receive p m s)
  unfolding receive
  receive-IsShown m s k = ground (arith, k.motion_shown, k.light_shown)

  step-IsShown : (e : Event) (s : Node p) → IsShown s → IsShown (step p e s)
  unfolding step on_send_timer
  step-IsShown (message m) s k = receive-IsShown m s k
  step-IsShown (pass i) s k = loop-IsShown i s k
  step-IsShown timer s k = record { motion_shown = refl; light_shown = refl }

  loop_reads :
      (i : Inputs) (s : Node p)
      → ((loop p i s).movement_detected ≡ i.movement) × ((loop p i s).light_level ≡ level p i)
  unfolding loop movement_sensor_process light_level_process button_process
  loop_reads i s = ground arith

  receive_keeps :
      (m : Incoming) (s : Node p)
      → ((receive p m s).movement_detected ≡ s.movement_detected)
        × ((receive p m s).light_level ≡ s.light_level)
  unfolding receive
  receive_keeps m s = ground arith

  steps_view :
      (es : List Event) (s : Node p)
      → IsShown s
      → (newest_motion (steps p es s).sent ≡ last_movement s.movement_detected es)
        × (newest_light (steps p es s).sent ≡ last_level s.light_level es)
  unfolding steps step on_send_timer
  steps_view [] s k = (k.motion_shown, k.light_shown)
  steps_view (message m ∷ es) s k =
      let (x, l) = receive_keeps m s in
      let (h, h') = steps_view es (receive p m s) (step-IsShown (message m) s k) in
      (h ∙ rw x refl, h' ∙ rw l refl)
  steps_view (pass i ∷ es) s k =
      let (x, l) = loop_reads i s in
      let (h, h') = steps_view es (loop p i s) (loop-IsShown i s k) in
      (h ∙ rw x refl, h' ∙ rw l refl)
  steps_view (timer ∷ es) s k = steps_view es (on_send_timer p s) (step-IsShown timer s k)

  -- After any history from a set-up before which nothing was sent, the newest motion report is the last
  -- reading of the motion pin, and the newest light report is the level of the last analog reading; no
  -- report means no motion, and level 0.
  view_is_current :
      (es : List Event) (s : Node p)
      → s.sent ≡ []
      → (newest_motion (steps p es (setup p s)).sent ≡ last_movement false es)
        × (newest_light (steps p es (setup p s)).sent ≡ last_level 0 es)
  unfolding setup reset
  view_is_current es s h =
      steps_view es (setup p s) (record { motion_shown = rw h refl; light_shown = rw h refl })
