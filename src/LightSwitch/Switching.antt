-- ===== src/LightSwitch/Switching.antt =====
-- A message that switches the lamp on or off, and the passes of the main loop after it.
use smarthouse_arduino.Base.{
  ℕ, ◌≤◌, ◌≡◌, refl, ap, ◌∙◌, not, if◌then◌else◌, List, [], ◌∷◌, map, length, arith, append_none,
  length-map,
}
use smarthouse_arduino.LightSwitch.Fading.{fades, fades-toward, toward, Due}
use smarthouse_arduino.LightSwitch.Node.{
  Eeprom, Node, fade_delay_fast_ms, dimmer_high, light_status, dimmer_process, dimmer_switch,
}
use smarthouse_arduino.LightSwitch.Passes.{loop-button, faded, fade-button}
use smarthouse_arduino.LightSwitch.Range.{InRange}
use smarthouse_arduino.LightSwitch.Sketch.{
  Incoming, Inputs, loop, call_all, receive, on_message_set_lamp_status, ms_lamp_id, v_light,
}
use smarthouse_arduino.LightSwitch.Tapping.{lamp_poll, loops, loops_none}
use smarthouse_arduino.NewButton.{process}
use smarthouse_arduino.NewButton.Press.{run}

abbrev pub pass_time : Inputs → ℕ
pass_time i = i.now

toward_near : (n a t : ℕ) → a ≤ dimmer_high → t ≤ dimmer_high → dimmer_high ≤ n → toward n a t ≡ t
toward_near n a t h k l = ground (arith, h, k, l)

module _ (e : Eeprom) where
  -- The dimmer moves by its levels and the time of its last step alone.
  record Alike (s s' : Node e) : Type 0 where
    same_dimmer : s'.dimmer ≡ s.dimmer
    same_time : s'.dimmer_last_now ≡ s.dimmer_last_now

  process-Alike :
      (now : ℕ) (s s' : Node e)
      → Alike s s'
      → Alike (dimmer_process e now s) (dimmer_process e now s')
  unfolding dimmer_process
  process-Alike now s s' a = record {
    same_dimmer = ground (arith, a.same_dimmer, a.same_time);
    same_time = ground (arith, a.same_dimmer, a.same_time);
  }

  loop-Alike :
      (i : Inputs) (s : Node e)
      → (process i.lamp.level i.lamp.now i.lamp.later s.button).1 ≡ []
      → Alike (dimmer_process e i.now s) (loop e i s)
  unfolding loop call_all faded
  loop-Alike i s h =
      let same_calls =
        ap (λ btn. (process i.lamp.level i.lamp.now i.lamp.later btn).1) (fade-button e i.now s)
        ∙ h in
      record {
        same_dimmer = ap (λ fs. (call_all e fs (faded e i s)).dimmer) same_calls;
        same_time = ap (λ fs. (call_all e fs (faded e i s)).dimmer_last_now) same_calls;
      }

  fades-Alike :
      (ns : List ℕ) (s s' : Node e) → Alike s s' → (fades e ns s').dimmer ≡ (fades e ns s).dimmer
  unfolding fades
  fades-Alike [] s s' a = a.same_dimmer
  fades-Alike (now ∷ ns) s s' a =
      fades-Alike ns (dimmer_process e now s) (dimmer_process e now s') (process-Alike now s s' a)

  -- Passes without calls move the dimmer as `dimmer_process` does.
  loops-fades :
      (is : List Inputs) (s : Node e)
      → (run s.button (map lamp_poll is)).1 ≡ []
      → (loops e is s).dimmer ≡ (fades e (map pass_time is) s).dimmer
  unfolding loops fades run
  loops-fades [] s h = refl
  loops-fades (i ∷ is) s h =
      let (now_none, later_none) = append_none _ _ h in
      let rest = ap (λ btn. (run btn (map lamp_poll is)).1) (loop-button e i s) ∙ later_none in
      loops-fades is (loop e i s) rest
      ∙ fades-Alike (map pass_time is) (dimmer_process e i.now s) (loop e i s)
          (loop-Alike i s now_none)

  receive_lamp :
      (m : Incoming) (s : Node e)
      → m.sensor ≡ ms_lamp_id
      → m.type ≡ v_light
      → receive e m s ≡ dimmer_switch e (not m.bool) fade_delay_fast_ms s
  unfolding receive on_message_set_lamp_status
  receive_lamp m s h k = ground (arith, h, k)

  -- With levels of at most DIMMER_HIGH: after a message that switches the lamp, and at least DIMMER_HIGH
  -- passes of the main loop in which its button calls nothing, each at least the fast delay after the one
  -- before, the lamp is at its limit if the message was true and else at DIMMER_HIGH, and that status
  -- is the one message sent.
  pub remote_switch_arrives :
      (m : Incoming) (s : Node e) (is : List Inputs)
      → m.sensor ≡ ms_lamp_id
      → m.type ≡ v_light
      → InRange e s
      → (run s.button (map lamp_poll is)).1 ≡ []
      → Due fade_delay_fast_ms s.dimmer_last_now (map pass_time is)
      → dimmer_high ≤ length is
      → let s' = loops e is (receive e m s) in
        (s'.dimmer.actual ≡ (if m.bool then s.dimmer.limit else dimmer_high))
        × (s'.sent ≡ light_status (if m.bool then 1 else 0) ∷ s.sent)
  unfolding dimmer_switch
  remote_switch_arrives m s is h k range quiet due many =
      let s1 = dimmer_switch e (not m.bool) fade_delay_fast_ms s in
      let ns = map pass_time is in
      let calm = loops_none e is s1 quiet in
      let near : s1.dimmer.target ≤ dimmer_high = ground (arith, range.limit_le) in
      let enough : dimmer_high ≤ length ns = omega (arith, many, length-map pass_time is) in
      let moves = fades-toward e ns s1 (omega (arith, range.actual_le)) (omega (arith, near)) due in
      let arrives =
        toward_near (length ns) s1.dimmer.actual s1.dimmer.target range.actual_le near enough in
      let aims : s1.dimmer.target ≡ (if m.bool then s.dimmer.limit else dimmer_high) =
        ground arith in
      let reports : s1.sent ≡ light_status (if m.bool then 1 else 0) ∷ s.sent = ground arith in
      rw (receive_lamp m s h k) (
        ap (λ d. d.actual) (loops-fades is s1 quiet) ∙ moves ∙ arrives ∙ aims,
        calm.same_sent ∙ reports,
      )
