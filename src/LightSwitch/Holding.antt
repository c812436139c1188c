-- ===== src/LightSwitch/Holding.antt =====
-- The lamp's button and the dimmer together: passes of the main loop over a long press.
use smarthouse_arduino.Base.{
  ℕ, ◌+◌, ◌-◌, ◌%◌, ◌≤◌, ◌<◌, ◌≡◌, refl, ap, sym, ◌∙◌, inl, inr, Bool, true, false, some, List, [],
  ◌∷◌, ◌++◌, map, arith,
}
use smarthouse_arduino.LightSwitch.Node.{
  Eeprom, IsEeprom, LampCallback, on_btn_long_press, on_btn_short_release, on_btn_long_release,
  Node, LampMessage, light_status, light_level, light_dimmer_convert, dimmer_process, dimmer_level,
  eeprom_save,
}
use smarthouse_arduino.LightSwitch.Sketch.{
  Inputs, loop, call, call_all, long_release_handler, step, pass,
}
use smarthouse_arduino.LightSwitch.Fading.{process-arrived}
use smarthouse_arduino.LightSwitch.Range.{InRange, step-InRange}
use smarthouse_arduino.LightSwitch.Passes.{fade-button, loop-button}
use smarthouse_arduino.LightSwitch.Tapping.{lamp_poll, loops, loops_button}
use smarthouse_arduino.NewButton.{process, long, Callbacks, no_callbacks}
use smarthouse_arduino.NewButton.Hold.{clock_mod, classify, IsIdle}
use smarthouse_arduino.NewButton.Calls.{PressCalls}
use smarthouse_arduino.NewButton.Press.{Poll, Holds, released, run, run_press}

abbrev is_release : LampCallback → Bool
is_release on_btn_long_press = false
is_release on_btn_short_release = false
is_release on_btn_long_release = true

-- Whether the last call is one of a long release.
abbrev ends : Bool → List LampCallback → Bool
ends d [] = d
ends d (f ∷ fs) = ends (is_release f) fs

ends-append : (d : Bool) (fs gs : List LampCallback) → ends d (fs ++ gs) ≡ ends (ends d fs) gs
ends-append d [] gs = refl
ends-append d (f ∷ fs) gs = ends-append (is_release f) fs gs

long_ends :
    (c : Callbacks LampCallback) (calls : List LampCallback)
    → c ≡ record no_callbacks {
      on_long_press = some on_btn_long_press;
      on_short_release = some on_btn_short_release;
      on_long_release = some on_btn_long_release;
    }
    → PressCalls c long calls
    → ends false calls ≡ true
long_ends c calls e (inl h) = rw (h, e) refl
long_ends c calls e (inr h) = rw (h, e) refl

module _ (e : Eeprom) where
  -- The lamp rests at its limit, which was the last byte written and the last level sent.
  record IsSettled (s : Node e) : Type 0 where
    still : s.dimmer.actual ≡ s.dimmer.target
    kept : s.dimmer.limit ≡ s.dimmer.actual
    stored : (r : e.Rom) × (s.rom ≡ e.update s.dimmer.actual r)
    reported :
        (older : List LampMessage) × (s.sent
          ≡ light_status 1 ∷ (light_level (light_dimmer_convert s.dimmer.actual) ∷ older))

  settle_call : (f : LampCallback) (s : Node e) → is_release f ≡ true → IsSettled (call e f s)
  unfolding call long_release_handler dimmer_level eeprom_save
  settle_call on_btn_long_press s h = cc h
  settle_call on_btn_short_release s h = cc h
  settle_call on_btn_long_release s h = record {
    still = refl;
    kept = refl;
    stored = (s.rom, refl);
    reported = (s.sent, refl);
  }

  settle_calls :
      (fs : List LampCallback) (d : Bool) (s : Node e)
      → (d ≡ true → IsSettled s)
      → ends d fs ≡ true
      → IsSettled (call_all e fs s)
  unfolding call_all
  settle_calls [] d s h l = h l
  settle_calls (f ∷ fs) d s h l = settle_calls fs (is_release f) (call e f s) (settle_call f s) l

  part-IsSettled :
      (s s' : Node e)
      → s'.dimmer ≡ s.dimmer
      → s'.rom ≡ s.rom
      → s'.sent ≡ s.sent
      → IsSettled s
      → IsSettled s'
  part-IsSettled s s' d r m i = record {
    still = rw d i.still;
    kept = rw d i.kept;
    stored = rw (d, r) i.stored;
    reported = rw (d, m) i.reported;
  }

  settle_loop :
      (i : Inputs) (d : Bool) (s : Node e)
      → (d ≡ true → IsSettled s)
      → ends d (process i.lamp.level i.lamp.now i.lamp.later s.button).1 ≡ true
      → IsSettled (loop e i s)
  unfolding loop
  settle_loop i d s h l =
      let faded = dimmer_process e i.now s in
      let (button', calls) = process i.lamp.level i.lamp.now i.lamp.later faded.button in
      let polled : Node e = record faded { button = button' } in
      let same_calls =
        ap (λ btn. ends d (process i.lamp.level i.lamp.now i.lamp.later btn).1)
          (fade-button e i.now s) in
      let rest : d ≡ true → IsSettled polled = λ x.
        let f = process-arrived e i.now s (h x).still in
        part-IsSettled s polled (ap (λ n. n.dimmer) f) (ap (λ n. n.rom) f) (ap (λ n. n.sent) f)
          (h x) in
      part-IsSettled (call_all e calls polled) (loop e i s) refl refl refl
        (settle_calls calls d polled rest (same_calls ∙ l))

  settle_loops :
      (is : List Inputs) (d : Bool) (s : Node e)
      → (d ≡ true → IsSettled s)
      → ends d (run s.button (map lamp_poll is)).1 ≡ true
      → IsSettled (loops e is s)
  unfolding loops run
  settle_loops [] d s h l = h l
  settle_loops (i ∷ is) d s h l =
      let now_calls = (process i.lamp.level i.lamp.now i.lamp.later s.button).1 in
      let d' = ends d now_calls in
      let btn = (process i.lamp.level i.lamp.now i.lamp.later s.button).0 in
      let later_calls = (run btn (map lamp_poll is)).1 in
      settle_loops is d' (loop e i s) (settle_loop i d s h) (
        ap (λ b. ends d' (run b (map lamp_poll is)).1) (loop-button e i s)
        ∙ sym (ends-append d now_calls later_calls)
        ∙ l)

  loops-InRange : (is : List Inputs) (s : Node e) → InRange e s → InRange e (loops e is s)
  unfolding loops step
  loops-InRange [] s i = i
  loops-InRange (x ∷ is) s i = loops-InRange is (loop e x s) (step-InRange e (pass x) s i)

module _ {e : Eeprom} (doc : IsEeprom e) where
  -- Passes of the main loop over a whole long press of the idle button of a lamp whose levels are at most
  -- DIMMER_HIGH: in the end the lamp rests at its level, which is the new limit and is stored, the last
  -- two messages are that level and a status of 1, and the button is idle again. The press is as in
  -- `run_press`, the button has the callbacks of set-up, and the memory behaves as documented.
  pub long_press_settles :
      (s : Node e) (from to last now later : ℕ) (ps : List Poll) (is : List Inputs)
      → s.button.callbacks ≡ record no_callbacks {
        on_long_press = some on_btn_long_press;
        on_short_release = some on_btn_short_release;
        on_long_release = some on_btn_long_release;
      }
      → InRange e s
      → IsIdle s.button
      → s.button.short_press_time ≤ s.button.long_press_time
      → 0 < from % clock_mod
      → from ≤ to
      → to < from + clock_mod
      → Holds from to last ps
      → classify s.button (last - from) ≡ long
      → map lamp_poll is
        ≡ record { status = true; now = from % clock_mod; later = to % clock_mod }
          ∷ (ps ++ released now later ∷ [])
      → let s' = loops e is s in
        (s'.dimmer.actual ≡ s'.dimmer.target)
        × (s'.dimmer.limit ≡ s'.dimmer.actual)
        × (e.read s'.rom ≡ s'.dimmer.actual)
        × ((older : List LampMessage) × (s'.sent
              ≡ light_status 1 ∷ (light_level (light_dimmer_convert s'.dimmer.actual) ∷ older)))
        × IsIdle s'.button
  long_press_settles s from to last now later ps is c range idle order p h l holds held polls =
      let (done, calls) = run_press s.button from to last now later ps idle order p h l holds in
      let end : ends false (run s.button (map lamp_poll is)).1 ≡ true =
        rw polls (long_ends s.button.callbacks _ c (rw held at calls)) in
      let i = settle_loops e is false s (λ x. cc x) end in
      let (r, written) = i.stored in
      let low = (loops-InRange e is s range).actual_le in
      (
        i.still,
        i.kept,
        ap e.read written ∙ doc.read-update (loops e is s).dimmer.actual r (omega (arith, low)),
        i.reported,
        rw (loops_button e is s, polls) done,
      )
