-- ===== src/LightSwitch/Parts.antt =====
-- sketches/LightSwitchAC/LightSwitchAC.ino: callbacks, messages and passes against their actions.
use smarthouse_arduino.LightSwitch.Actions.{
  Action, set_button, poll_relay1, poll_relay2, call_actions, callbacks, message_actions,
  later_actions, act, acts,
}
use smarthouse_arduino.Base.{◌≡◌, refl, sym, ap, ◌∙◌, List, [], ◌∷◌, ◌++◌, arith}
use smarthouse_arduino.LightSwitch.Node.{
  Eeprom, LampCallback, on_btn_long_press, on_btn_short_release, on_btn_long_release, Dimmer, Node,
  dimmer_process, dimmer_switch, dimmer_level, eeprom_save, change_button_direction,
}
use smarthouse_arduino.LightSwitch.Passes.{fade-button}
use smarthouse_arduino.LightSwitch.Sketch.{
  Incoming, Inputs, call, call_all, loop, receive, long_press_handler, short_release_handler,
  long_release_handler, on_message_set_light_level, on_message_set_lamp_status,
  on_message_set_relay_status,
}
use smarthouse_arduino.NewButton.{process}

module _ (e : Eeprom) where
  acts-append : (xs ys : List Action) (s : Node e) → acts e (xs ++ ys) s ≡ acts e ys (acts e xs s)
  unfolding acts
  acts-append [] ys s = refl
  acts-append (x ∷ xs) ys s = acts-append xs ys (act e x s)

  acts-call : (f : LampCallback) (s : Node e) → acts e (call_actions e f s) s ≡ call e f s
  unfolding acts act call_actions call long_press_handler short_release_handler long_release_handler
      dimmer_switch dimmer_level eeprom_save
  acts-call on_btn_long_press s = refl
  acts-call on_btn_short_release s = refl
  acts-call on_btn_long_release s = refl

  acts-callbacks :
      (fs : List LampCallback) (s : Node e) → acts e (callbacks e fs s) s ≡ call_all e fs s
  unfolding acts callbacks call_all
  acts-callbacks [] s = refl
  acts-callbacks (f ∷ fs) s =
      acts-append (call_actions e f s) (callbacks e fs (call e f s)) s
      ∙ ap (acts e (callbacks e fs (call e f s))) (acts-call f s)
      ∙ acts-callbacks fs (call e f s)

  pub acts-receive : (m : Incoming) (s : Node e) → acts e (message_actions e m s) s ≡ receive e m s
  unfolding acts act message_actions receive dimmer_switch dimmer_level eeprom_save
      on_message_set_light_level on_message_set_lamp_status on_message_set_relay_status
  acts-receive m s = ground arith

  -- What the callbacks read.
  abbrev pub Alike : Node e → Node e → Type 0
  Alike s t = (t.dimmer ≡ s.dimmer) × (t.button_direction ≡ s.button_direction)

  call-Alike : (f : LampCallback) (s t : Node e) → Alike s t → Alike (call e f s) (call e f t)
  unfolding call long_press_handler short_release_handler long_release_handler dimmer_switch
      dimmer_level eeprom_save change_button_direction
  call-Alike on_btn_long_press s t (h, h') = (rw (h, h') refl, rw (h, h') refl)
  call-Alike on_btn_short_release s t (h, h') = (rw (h, h') refl, rw (h, h') refl)
  call-Alike on_btn_long_release s t (h, h') =
      (ap {A = Dimmer} (λ d. record d { limit = d.actual; target = d.actual }) h, h')

  call_actions-Alike :
      (f : LampCallback) (s t : Node e) → Alike s t → call_actions e f t ≡ call_actions e f s
  unfolding call_actions change_button_direction
  call_actions-Alike on_btn_long_press s t (h, h') = rw (h, h') refl
  call_actions-Alike on_btn_short_release s t (h, h') = rw (h, h') refl
  call_actions-Alike on_btn_long_release s t (h, h') = rw h refl

  callbacks-Alike :
      (fs : List LampCallback) (s t : Node e) → Alike s t → callbacks e fs t ≡ callbacks e fs s
  unfolding callbacks
  callbacks-Alike [] s t h = refl
  callbacks-Alike (f ∷ fs) s t h =
      rw
        (
          call_actions-Alike f s t h,
          callbacks-Alike fs (call e f s) (call e f t) (call-Alike f s t h),
        )
        refl

  -- A pass is the fade followed by its actions.
  pub loop-later_actions :
      (i : Inputs) (s : Node e)
      → loop e i s ≡ acts e (later_actions e i s) (dimmer_process e i.now s)
  unfolding loop acts act later_actions
  loop-later_actions i s =
      let f = dimmer_process e i.now s in
      let (btn', calls) = process i.lamp.level i.lamp.now i.lamp.later f.button in
      let f' : Node e = record f { button = btn' } in
      let todo = poll_relay1 i.relay1_poll ∷ (poll_relay2 i.relay2_poll ∷ []) in
      ap (acts e todo) (
        sym (acts-callbacks calls f')
        ∙ ap (λ cs. acts e cs f') (callbacks-Alike calls f f' (refl, refl)))
      ∙ sym (acts-append (callbacks e calls f) todo f')
      ∙ ap
          (λ b.
            let (b', cs) = process i.lamp.level i.lamp.now i.lamp.later b in
            acts e (set_button b' ∷ (callbacks e cs f ++ todo)) f)
          (fade-button e i.now s)

  fade-Alike :
      (i : Inputs) (s t : Node e)
      → Alike s t
      → t.dimmer_last_now ≡ s.dimmer_last_now
      → Alike (dimmer_process e i.now s) (dimmer_process e i.now t)
  unfolding dimmer_process
  fade-Alike i s t (h, h') k = (ground (arith, h, k), ground (arith, h, h', k))

  pub later_actions-Alike :
      (i : Inputs) (s t : Node e)
      → Alike s t
      → t.dimmer_last_now ≡ s.dimmer_last_now
      → t.button ≡ s.button
      → later_actions e i t ≡ later_actions e i s
  unfolding later_actions
  later_actions-Alike i s t h k b =
      let f = dimmer_process e i.now in
      let (btn', calls) = process i.lamp.level i.lamp.now i.lamp.later s.button in
      let todo = poll_relay1 i.relay1_poll ∷ (poll_relay2 i.relay2_poll ∷ []) in
      ap
        (λ b.
          let (b', cs) = process i.lamp.level i.lamp.now i.lamp.later b in
          set_button b' ∷ (callbacks e cs (f t) ++ todo))
        b
      ∙ ap (λ cs. set_button btn' ∷ (cs ++ todo))
          (callbacks-Alike calls (f s) (f t) (fade-Alike i s t h k))
