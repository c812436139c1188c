-- ===== src/LightSwitch/Actions.antt =====
-- sketches/LightSwitchAC/LightSwitchAC.ino: passes and messages as actions, with interrupts between.
use smarthouse_arduino.Base.{ℕ, Bool, not, List, [], ◌∷◌, ◌++◌, ◌==◌, if◌then◌else◌}
use smarthouse_arduino.LightSwitch.Node.{
  dimmer_high, dimmer_max, dimmer_low, fade_delay_slow_ms, fade_delay_fast_ms, Eeprom, LampCallback,
  on_btn_long_press, on_btn_short_release, on_btn_long_release, Dimmer, LampMessage, light_status,
  light_level, Node, light_dimmer_convert, change_button_direction, on_zero_cross_detect,
  on_timer_dim_check, eeprom_save, send_message, dimmer_process,
}
use smarthouse_arduino.LightSwitch.Relay.{set_status, relay_process}
use smarthouse_arduino.LightSwitch.Sketch.{
  ms_lamp_id, ms_relay1_id, ms_relay2_id, v_light, v_light_level, Incoming, constrained, Inputs,
  Poll, call, Event, zero_crossing, timer_tick,
}
use smarthouse_arduino.NewButton.{NewButton, process}

pub data Interrupt : Type 0 where
  crossing tick : Interrupt

abbrev pub event_of : Interrupt → Event
event_of crossing = zero_crossing
event_of tick = timer_tick

-- What the main loop and the messages write and send, between any two of which an interrupt can come; it
-- finds and changes none of what a poll of a button does.
pub data Action : Type 0 where
  set_button : NewButton LampCallback → Action
  set_direction : Bool → Action
  set_limit set_target set_delay set_last_now : ℕ → Action
  save : Action
  send : LampMessage → Action
  set_relay1 set_relay2 : Bool → Action
  poll_relay1 poll_relay2 : Poll → Action

pub data Step : Type 0 where
  action : Action → Step
  interruption : Interrupt → Step

-- The steps are the actions and the interrupts, each in their order.
pub data Merge : List Action → List Interrupt → List Step → Type 0 where
  merged : Merge [] [] []
  act_next :
      {todo : List Action} {xs : List Interrupt} {ss : List Step} (a : Action)
      → Merge todo xs ss
      → Merge (a ∷ todo) xs (action a ∷ ss)
  interrupt_next :
      {todo : List Action} {xs : List Interrupt} {ss : List Step} (x : Interrupt)
      → Merge todo xs ss
      → Merge todo (x ∷ xs) (interruption x ∷ ss)

-- `dimmer_switch` and `dimmer_level`, in the order of their lines.
abbrev pub switch_actions : Bool → ℕ → Dimmer → List Action
switch_actions status delay d =
    let target = if status then dimmer_high else d.limit in
    let message = light_status (if status then 0 else 1) in
    set_target target ∷ (send message ∷ (set_delay delay ∷ []))

abbrev pub level_actions : ℕ → List Action
level_actions level =
    set_limit level
    ∷ (set_target level
        ∷ (save ∷ (send (light_level (light_dimmer_convert level)) ∷ (send (light_status 1) ∷ []))))

module _ (e : Eeprom) where
  -- What a callback and a message do, by the node before them: of what these read, no interrupt writes
  -- anything.
  unfoldable pub call_actions : LampCallback → Node e → List Action
  call_actions on_btn_long_press s =
      let up = change_button_direction e dimmer_low dimmer_max s in
      set_direction up
      ∷ (set_target (if up then dimmer_max else dimmer_low) ∷ (set_delay fade_delay_slow_ms ∷ []))
  call_actions on_btn_short_release s =
      let up = change_button_direction e s.dimmer.limit dimmer_high s in
      set_direction up ∷ switch_actions up fade_delay_fast_ms s.dimmer
  call_actions on_btn_long_release s = level_actions s.dimmer.actual

  unfoldable pub callbacks : List LampCallback → Node e → List Action
  callbacks [] s = []
  callbacks (f ∷ fs) s = call_actions f s ++ callbacks fs (call e f s)

  unfoldable pub message_actions : Incoming → Node e → List Action
  message_actions m s =
      if m.sensor == ms_lamp_id
      then (if m.type == v_light_level
          then level_actions (light_dimmer_convert (constrained m.int))
          else if m.type == v_light
          then switch_actions (not m.bool) fade_delay_fast_ms s.dimmer
          else [])
      else if m.sensor == ms_relay1_id
      then set_relay1 m.bool ∷ []
      else if m.sensor == ms_relay2_id
      then set_relay2 m.bool ∷ []
      else []

  -- The actions of a pass after `dimmer_process`, by the node before that.
  unfoldable pub later_actions : Inputs → Node e → List Action
  later_actions i s =
      let (btn', calls) = process i.lamp.level i.lamp.now i.lamp.later s.button in
      set_button btn'
      ∷ (callbacks calls (dimmer_process e i.now s)
          ++ (poll_relay1 i.relay1_poll ∷ (poll_relay2 i.relay2_poll ∷ [])))

  -- The actions of a pass after the write of the level: first the time of the fade's step, which stays the
  -- same if the fade takes none.
  unfoldable pub actions : Inputs → Node e → List Action
  unfolding later_actions
  actions i s = set_last_now (dimmer_process e i.now s).dimmer_last_now ∷ later_actions i s

  unfoldable pub act : Action → Node e → Node e
  unfolding eeprom_save
  act (set_button btn) s = record s { button = btn }
  act (set_direction up) s = record s { button_direction = up }
  act (set_limit x) s = record s { dimmer = record s.dimmer { limit = x } }
  act (set_target x) s = record s { dimmer = record s.dimmer { target = x } }
  act (set_delay x) s = record s { dimmer = record s.dimmer { delay = x } }
  act (set_last_now x) s = record s { dimmer_last_now = x }
  act save s = eeprom_save e s
  act (send m) s = send_message e m s
  act (set_relay1 x) s = record s { relay1 = set_status x s.relay1 }
  act (set_relay2 x) s = record s { relay2 = set_status x s.relay2 }
  act (poll_relay1 p) s = record s { relay1 = relay_process p.level p.now p.later s.relay1 }
  act (poll_relay2 p) s = record s { relay2 = relay_process p.level p.now p.later s.relay2 }

  unfoldable pub acts : List Action → Node e → Node e
  acts [] s = s
  acts (a ∷ todo) s = acts todo (act a s)

  unfoldable pub interrupt : Interrupt → Node e → Node e
  interrupt crossing s = on_zero_cross_detect e s
  interrupt tick s = on_timer_dim_check e s

  unfoldable pub interrupts : List Interrupt → Node e → Node e
  interrupts [] s = s
  interrupts (x ∷ xs) s = interrupts xs (interrupt x s)

  unfoldable pub run_steps : List Step → Node e → Node e
  run_steps [] s = s
  run_steps (action a ∷ ss) s = run_steps ss (act a s)
  run_steps (interruption x ∷ ss) s = run_steps ss (interrupt x s)

  -- The write of the level that the fade `f` has come to.
  abbrev pub write_actual : Node e → Node e → Node e
  write_actual f s = record s { dimmer = record s.dimmer { actual = f.dimmer.actual } }
