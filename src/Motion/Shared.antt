-- ===== src/Motion/Shared.antt =====
-- sketches/MotionLightWithRelay/MotionLightWithRelay.ino: a pass of the main loop as writes, between which the
-- timer's interrupt `on_send_timer` can come, with the two messages that both fill in and send.
use smarthouse_arduino.Base.{
  ℕ, ◌≡◌, refl, Bool, true, false, not, ◌&&◌, List, [], ◌∷◌, ◌++◌, ◌==◌, if◌then◌else◌, arith,
}
use smarthouse_arduino.Motion.{
  Platform, motion, light, relay, Inputs, Node, truth, loop, on_send_timer, message_send,
  movement_sensor_process, light_level_process, button_process,
}
use smarthouse_arduino.Motion.Reports.{level}

-- `msgMot` and `msgLight`.
pub data Kind : Type 0 where
  of_motion of_light : Kind

-- `load` is `set` of a message with the variable of its kind, `transmit` hands the message to `send`;
-- `msgRelay` is only used by the main loop, so `ask_relay` is both.
pub data Action : Type 0 where
  set_motion : Bool → Action
  set_light : ℕ → Action
  load transmit : Kind → Action
  ask_relay : Action
  set_button : Bool → Action

-- The steps are the actions in their order, with interrupts of the timer anywhere.
pub data Step : Type 0 where
  action : Action → Step
  tick : Step

pub data Interleaved : List Action → List Step → Type 0 where
  over : Interleaved [] []
  act_next :
      {todo : List Action} {ss : List Step} (a : Action)
      → Interleaved todo ss
      → Interleaved (a ∷ todo) (action a ∷ ss)
  tick_next :
      {todo : List Action} {ss : List Step} → Interleaved todo ss → Interleaved todo (tick ∷ ss)

module _ (p : Platform) where
  -- The globals, with the payloads of `msgMot` and `msgLight`.
  pub record Shared : Type 0 where
    pub node : Node p
    pub msg_mot : Bool
    pub msg_light : ℕ

  abbrev pub movement_actions : Bool → Node p → List Action
  movement_actions detected s =
      if detected && not s.movement_detected
      then set_motion true ∷ (load of_motion ∷ (transmit of_motion ∷ []))
      else if not detected && s.movement_detected
      then set_motion false ∷ (load of_motion ∷ (transmit of_motion ∷ []))
      else []

  abbrev pub light_actions : ℕ → Node p → List Action
  light_actions level s =
      if level == s.light_level
      then []
      else set_light level ∷ (load of_light ∷ (transmit of_light ∷ []))

  abbrev pub button_actions : Bool → Node p → List Action
  button_actions new_state s =
      if s.button_state && not new_state
      then ask_relay ∷ (set_button new_state ∷ [])
      else set_button new_state ∷ []

  -- What a pass does, by the globals before it: of what its tests read, no interrupt writes anything.
  unfoldable pub actions : Inputs → Node p → List Action
  actions i s =
      movement_actions i.movement s ++ (light_actions (level p i) s ++ button_actions i.button s)

  unfoldable pub act : Action → Shared → Shared
  act (set_motion x) s = record s { node = record s.node { movement_detected = x } }
  act (set_light x) s = record s { node = record s.node { light_level = x } }
  act (load of_motion) s = record s { msg_mot = s.node.movement_detected }
  act (load of_light) s = record s { msg_light = s.node.light_level }
  act (transmit of_motion) s = record s { node = message_send p (motion s.msg_mot) s.node }
  act (transmit of_light) s = record s { node = message_send p (light s.msg_light) s.node }
  act ask_relay s = record s {
    node = message_send p (relay (not (truth s.node.relay_state))) s.node;
  }
  act (set_button x) s = record s { node = record s.node { button_state = x } }

  unfoldable pub acts : List Action → Shared → Shared
  acts [] s = s
  acts (a ∷ todo) s = acts todo (act a s)

  -- The timer's interrupt fills in and sends both messages.
  unfoldable pub interrupt : Shared → Shared
  unfolding acts act
  interrupt s =
      acts (load of_motion ∷ (transmit of_motion ∷ (load of_light ∷ (transmit of_light ∷ [])))) s

  unfoldable pub run_steps : List Step → Shared → Shared
  run_steps [] s = s
  run_steps (action a ∷ ss) s = run_steps ss (act a s)
  run_steps (tick ∷ ss) s = run_steps ss (interrupt s)

  -- Without interrupts in it, a pass is `loop`, and an interrupt between passes is `on_send_timer`.
  pub acts-loop : (i : Inputs) (s : Shared) → (acts (actions i s.node) s).node ≡ loop p i s.node
  unfolding acts act actions loop movement_sensor_process light_level_process button_process
  acts-loop i s = ground arith

  pub interrupt-on_send_timer : (s : Shared) → (interrupt s).node ≡ on_send_timer p s.node
  unfolding interrupt on_send_timer
  interrupt-on_send_timer s = refl
