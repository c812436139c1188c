-- ===== src/Motion/Preempted.antt =====
-- What the controller knows of a MotionLightWithRelay node whose passes the timer's interrupt preempts.
use smarthouse_arduino.Base.{ℕ, ◌≡◌, refl, ◌∙◌, Bool, false, List, [], arith}
use smarthouse_arduino.Motion.{Platform, Incoming, Inputs, setup, receive, reset}
use smarthouse_arduino.Motion.Reports.{level}
use smarthouse_arduino.Motion.Shared.{
  of_motion, of_light, Step, Interleaved, Shared, actions, acts, act, interrupt, run_steps,
}
use smarthouse_arduino.Motion.View.{newest_motion, newest_light}
use smarthouse_arduino.Motion.Timed.{
  actions-Paired, actions-Before, actions-motion, actions-light, run_steps-Before,
  run_steps-variable,
}

module _ {p : Platform} where
  -- The states after set-up, messages, interrupts of the timer and whole passes, with the last reading of
  -- the motion pin and of the light level; a pass has interrupts anywhere between its actions.
  pub data Reached : Bool → ℕ → Shared p → Type 0 where
    started :
        (s : Shared p) → s.node.sent ≡ [] → Reached false 0 (record s { node = setup p s.node })
    received :
        {x : Bool} {l : ℕ} {s : Shared p} (m : Incoming)
        → Reached x l s
        → Reached x l (record s { node = receive p m s.node })
    interrupted : {x : Bool} {l : ℕ} {s : Shared p} → Reached x l s → Reached x l (interrupt p s)
    passed :
        {x : Bool} {l : ℕ} {s : Shared p} (i : Inputs) {ss : List Step}
        → Interleaved (actions p i s.node) ss
        → Reached x l s
        → Reached i.movement (level p i) (run_steps p ss s)

  record IsCurrent (x : Bool) (l : ℕ) (s : Shared p) : Type 0 where
    motion_sent : newest_motion s.node.sent ≡ s.node.movement_detected
    light_sent : newest_light s.node.sent ≡ s.node.light_level
    motion_read : s.node.movement_detected ≡ x
    light_read : s.node.light_level ≡ l

  receive-IsCurrent :
      (x : Bool) (l : ℕ) (s : Shared p) (m : Incoming)
      → IsCurrent x l s
      → IsCurrent x l (record s { node = receive p m s.node })
  unfolding receive
  receive-IsCurrent x l s m k =
      ground (arith, k.motion_sent, k.light_sent, k.motion_read, k.light_read)

  interrupt-IsCurrent :
      (x : Bool) (l : ℕ) (s : Shared p) → IsCurrent x l s → IsCurrent x l (interrupt p s)
  unfolding interrupt acts act
  interrupt-IsCurrent x l s k = record {
    motion_sent = refl;
    light_sent = refl;
    motion_read = k.motion_read;
    light_read = k.light_read;
  }

  passed-IsCurrent :
      (x : Bool) (l : ℕ) (s : Shared p) (i : Inputs) (ss : List Step)
      → Interleaved (actions p i s.node) ss
      → IsCurrent x l s
      → IsCurrent i.movement (level p i) (run_steps p ss s)
  passed-IsCurrent x l s i ss w k = record {
    motion_sent =
        run_steps-Before of_motion w s (actions-Paired of_motion i s)
          (actions-Before of_motion i s k.motion_sent);
    light_sent =
        run_steps-Before of_light w s (actions-Paired of_light i s)
          (actions-Before of_light i s k.light_sent);
    motion_read = run_steps-variable of_motion w s ∙ actions-motion i s;
    light_read = run_steps-variable of_light w s ∙ actions-light i s;
  }

  Reached-IsCurrent : {x : Bool} {l : ℕ} {s : Shared p} → Reached x l s → IsCurrent x l s
  unfolding setup reset
  Reached-IsCurrent (started s h) = record {
    motion_sent = rw h refl;
    light_sent = rw h refl;
    motion_read = refl;
    light_read = refl;
  }
  Reached-IsCurrent (received {x} {l} {s} m r) = receive-IsCurrent x l s m (Reached-IsCurrent r)
  Reached-IsCurrent (interrupted {x} {l} {s} r) = interrupt-IsCurrent x l s (Reached-IsCurrent r)
  Reached-IsCurrent (passed {x} {l} {s} i {ss} w r) =
      passed-IsCurrent x l s i ss w (Reached-IsCurrent r)

  -- After set-up with nothing sent before it, and then messages, passes and interrupts of the timer, also
  -- between any two actions of a pass, so between `set` of a message and `send`: whenever no pass is under
  -- way, the newest motion report is the last reading of the motion pin and the newest light report the
  -- level of the last analog reading; no report means no motion, and level 0.
  pub Reached_view :
      {x : Bool} {l : ℕ} {s : Shared p}
      → Reached x l s
      → (newest_motion s.node.sent ≡ x) × (newest_light s.node.sent ≡ l)
  Reached_view r =
      let k = Reached-IsCurrent r in (k.motion_sent ∙ k.motion_read, k.light_sent ∙ k.light_read)
