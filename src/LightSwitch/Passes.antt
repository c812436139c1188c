-- ===== src/LightSwitch/Passes.antt =====
-- What one pass of the main loop does to the dimmer, without calls and with a short release.
use smarthouse_arduino.Base.{
  ℕ, ◌≤◌, ◌≡◌, ◌⊎◌, refl, sym, ap, ◌∙◌, inl, inr, List, [], ◌∷◌, arith, ◌==◌, if◌then◌else◌,
}
use smarthouse_arduino.LightSwitch.Node.{
  dimmer_high, Eeprom, LampCallback, on_btn_long_press, on_btn_short_release, on_btn_long_release,
  Node, light_status, dimmer_process, dimmer_switch, change_button_direction, dimmer_level,
  eeprom_save,
}
use smarthouse_arduino.LightSwitch.Sketch.{
  Inputs, call, call_all, loop, long_press_handler, short_release_handler, long_release_handler,
}
use smarthouse_arduino.NewButton.{process}

-- The target of a short press of a lamp that rests at its target.
abbrev pub other_target : ℕ → ℕ → ℕ
other_target target limit = if target == dimmer_high then limit else dimmer_high

module _ (e : Eeprom) where
  -- A pass without calls moves the actual level at most.
  pub record Calm (s s' : Node e) : Type 0 where
    pub same_target : s'.dimmer.target ≡ s.dimmer.target
    pub same_limit : s'.dimmer.limit ≡ s.dimmer.limit
    pub same_sent : s'.sent ≡ s.sent
    pub at_rest : s.dimmer.actual ≡ s.dimmer.target → s'.dimmer.actual ≡ s.dimmer.actual

  fade-Calm : (now : ℕ) (s : Node e) → Calm s (dimmer_process e now s)
  unfolding dimmer_process
  fade-Calm now s = record {
    same_target = ground arith;
    same_limit = ground arith;
    same_sent = ground arith;
    at_rest = λ h. ground (arith, h);
  }

  pub fade-button : (now : ℕ) (s : Node e) → (dimmer_process e now s).button ≡ s.button
  unfolding dimmer_process
  fade-button now s = ground arith

  call-button : (fs : List LampCallback) (s : Node e) → (call_all e fs s).button ≡ s.button
  unfolding call_all call long_press_handler short_release_handler long_release_handler
      dimmer_switch dimmer_level eeprom_save
  call-button [] s = refl
  call-button (on_btn_long_press ∷ fs) s = call-button fs (call e on_btn_long_press s)
  call-button (on_btn_short_release ∷ fs) s = call-button fs (call e on_btn_short_release s)
  call-button (on_btn_long_release ∷ fs) s = call-button fs (call e on_btn_long_release s)

  pub loop-button :
      (i : Inputs) (s : Node e)
      → (loop e i s).button ≡ (process i.lamp.level i.lamp.now i.lamp.later s.button).0
  unfolding loop
  loop-button i s =
      let faded = dimmer_process e i.now s in
      let (button', calls) = process i.lamp.level i.lamp.now i.lamp.later faded.button in
      call-button calls (record faded { button = button' })
      ∙ ap (λ btn. (process i.lamp.level i.lamp.now i.lamp.later btn).0) (fade-button i.now s)

  -- The state of a pass before its calls, and the calls.
  unfoldable pub faded : Inputs → Node e → Node e
  faded i s =
      let f = dimmer_process e i.now s in
      record f { button = (process i.lamp.level i.lamp.now i.lamp.later f.button).0 }

  pub loop_calls :
      (i : Inputs) (s : Node e) (calls : List LampCallback)
      → (process i.lamp.level i.lamp.now i.lamp.later s.button).1 ≡ calls
      → ((loop e i s).dimmer ≡ (call_all e calls (faded i s)).dimmer)
        × ((loop e i s).sent ≡ (call_all e calls (faded i s)).sent)
  unfolding loop faded
  loop_calls i s calls h =
      let same_calls : (process i.lamp.level i.lamp.now i.lamp.later
            (dimmer_process e i.now s).button).1
          ≡ calls =
        ap (λ btn. (process i.lamp.level i.lamp.now i.lamp.later btn).1) (fade-button i.now s)
        ∙ h in
      (
        ap (λ fs. (call_all e fs (faded i s)).dimmer) same_calls,
        ap (λ fs. (call_all e fs (faded i s)).sent) same_calls,
      )

  pub loop_none :
      (i : Inputs) (s : Node e)
      → (process i.lamp.level i.lamp.now i.lamp.later s.button).1 ≡ []
      → Calm s (loop e i s)
  unfolding call_all faded
  loop_none i s h =
      let (d, sent) = loop_calls i s [] h in
      let calm = fade-Calm i.now s in
      record {
        same_target = ap (λ x. x.target) d ∙ calm.same_target;
        same_limit = ap (λ x. x.limit) d ∙ calm.same_limit;
        same_sent = sent ∙ calm.same_sent;
        at_rest = λ r. ap (λ x. x.actual) d ∙ calm.at_rest r;
      }

  -- What a short release does to a lamp at rest at the limit or at DIMMER_HIGH.
  pub record Tapped (s s' : Node e) : Type 0 where
    pub new_target : s'.dimmer.target ≡ other_target s.dimmer.target s.dimmer.limit
    pub kept_limit : s'.dimmer.limit ≡ s.dimmer.limit
    pub new_sent : s'.sent ≡ light_status (if s.dimmer.target == dimmer_high then 1 else 0) ∷ s.sent

  -- A lamp that rests at DIMMER_HIGH or at its limit.
  pub record IsResting (s : Node e) : Type 0 where
    pub still : s.dimmer.actual ≡ s.dimmer.target
    pub places : (s.dimmer.target ≡ dimmer_high) ⊎ (s.dimmer.target ≡ s.dimmer.limit)
    pub range : s.dimmer.limit ≤ dimmer_high

  tap-Tapped : (s : Node e) → IsResting s → Tapped s (short_release_handler e s)
  unfolding short_release_handler dimmer_switch change_button_direction
  tap-Tapped s r =
      let still = r.still in
      let range = r.range in
      elim r.places [
        | inl h ↦ record {
          new_target = ground (arith, h, still, range);
          kept_limit = refl;
          new_sent = ground (arith, h, still, range);
        }
        | inr h ↦ record {
          new_target = ground (arith, h, still, range);
          kept_limit = refl;
          new_sent = ground (arith, h, still, range);
        }
      ]

  pub Calm-IsResting : (s s' : Node e) → Calm s s' → IsResting s → IsResting s'
  Calm-IsResting s s' c r = record {
    still = c.at_rest r.still ∙ r.still ∙ sym c.same_target;
    places = elim r.places [
      | inl h ↦ inl (c.same_target ∙ h)
      | inr h ↦ inr (c.same_target ∙ h ∙ sym c.same_limit)
    ];
    range = rw c.same_limit r.range;
  }

  pub Calm-Calm : (s s' s'' : Node e) → Calm s s' → Calm s' s'' → Calm s s''
  Calm-Calm s s' s'' c d = record {
    same_target = d.same_target ∙ c.same_target;
    same_limit = d.same_limit ∙ c.same_limit;
    same_sent = d.same_sent ∙ c.same_sent;
    at_rest = λ h. d.at_rest (c.at_rest h ∙ h ∙ sym c.same_target) ∙ c.at_rest h;
  }

  pub Calm-Tapped : (s s' s'' : Node e) → Calm s s' → Tapped s' s'' → Tapped s s''
  Calm-Tapped s s' s'' c t = record {
    new_target = rw (sym c.same_target, sym c.same_limit) t.new_target;
    kept_limit = t.kept_limit ∙ c.same_limit;
    new_sent = rw (sym c.same_target, sym c.same_sent) t.new_sent;
  }

  pub Tapped-Calm : (s s' s'' : Node e) → Tapped s s' → Calm s' s'' → Tapped s s''
  Tapped-Calm s s' s'' t c = record {
    new_target = c.same_target ∙ t.new_target;
    kept_limit = c.same_limit ∙ t.kept_limit;
    new_sent = c.same_sent ∙ t.new_sent;
  }

  faded-Calm : (i : Inputs) (s : Node e) → Calm s (faded i s)
  unfolding faded
  faded-Calm i s =
      let calm = fade-Calm i.now s in
      record {
        same_target = calm.same_target;
        same_limit = calm.same_limit;
        same_sent = calm.same_sent;
        at_rest = calm.at_rest;
      }

  pub loop_tap :
      (i : Inputs) (s : Node e)
      → (process i.lamp.level i.lamp.now i.lamp.later s.button).1 ≡ on_btn_short_release ∷ []
      → IsResting s
      → Tapped s (loop e i s)
  unfolding call_all call
  loop_tap i s h r =
      let (d, sent) = loop_calls i s (on_btn_short_release ∷ []) h in
      let calm = faded-Calm i s in
      let t =
        Calm-Tapped s (faded i s) _ calm (tap-Tapped (faded i s) (Calm-IsResting s _ calm r)) in
      record {
        new_target = ap (λ x. x.target) d ∙ t.new_target;
        kept_limit = ap (λ x. x.limit) d ∙ t.kept_limit;
        new_sent = sent ∙ t.new_sent;
      }
