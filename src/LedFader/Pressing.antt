-- ===== src/LedFader/Pressing.antt =====
-- A whole short press of the Kitchen button over the faders, until the LEDs are at rest.
use mathlib.Core.List.{append-nil}
use smarthouse_arduino.Base.{
  ℕ, ◌*◌, ◌+◌, ◌-◌, ◌%◌, ◌≤◌, ◌<◌, ◌≡◌, ◌↔◌, refl, sym, ap, subst, ◌∙◌, Bool, true, false, some,
  List, [], ◌∷◌, ◌++◌, map, arith, if◌then◌else◌,
}
use smarthouse_arduino.Kitchen.Leds.{fade_time_ms}
use smarthouse_arduino.Kitchen.Loops.{
  loops, loops_none, loops_button, loops_short, loops-append, loops-passes_at, loop-short_release,
}
use smarthouse_arduino.Kitchen.Outcomes.{Settled, Switched}
use smarthouse_arduino.Kitchen.Passes.{passes_at}
use smarthouse_arduino.Kitchen.Sketch.{
  Callback, on_btn_short_release, on_btn_long_press, short_release_handler, loop,
}
use smarthouse_arduino.Kitchen.State.{Kitchen}
use smarthouse_arduino.Kitchen.Types.{Rgbw, no_color, IsByteColor}
use smarthouse_arduino.LedFader.{Float, IsFloat}
use smarthouse_arduino.LedFader.Fade.{Times, last_of}
use smarthouse_arduino.LedFader.Implements.{Rom, IsRom, fader_board, laws}
use smarthouse_arduino.LedFader.Settling.{release_settles_soon}
use smarthouse_arduino.LedFader.Turning.{reading}
use smarthouse_arduino.NewButton.{NewButton, process, short, no_callbacks, Callbacks}
use smarthouse_arduino.NewButton.Gestures.{AllDown, run_rest}
use smarthouse_arduino.NewButton.Hold.{clock_mod, classify, IsIdle}
use smarthouse_arduino.NewButton.Press.{
  Poll, Holds, up_at, released, run, run-IsHeld, run_release, run-append,
}

-- Polls at true times of a button that is not pressed.
abbrev pub rests : List ℕ → List Poll
rests [] = []
rests (u ∷ us) = released (reading u) (reading u) ∷ rests us

rests-AllDown : (us : List ℕ) → AllDown (rests us)
rests-AllDown [] = tt
rests-AllDown (u ∷ us) = (refl, rests-AllDown us)

later_rests : (us : List ℕ) → map (λ (p : Poll). p.later) (rests us) ≡ map reading us
later_rests [] = refl
later_rests (u ∷ us) = ap (◌∷◌ (reading u)) (later_rests us)

-- The callbacks that the Kitchen sketch registers.
abbrev pub kitchen_callbacks : Callbacks Callback
kitchen_callbacks = record no_callbacks {
  on_long_press = some on_btn_long_press;
  on_short_release = some on_btn_short_release;
}

same_choice : {P : Type 0} (on on' : Bool) → (on ≡ false) ↔ P → (on' ≡ false) ↔ P → on' ≡ on
same_choice true true h h' = refl
same_choice true false h h' = cc (h.1 (h'.0 refl))
same_choice false true h h' = cc (h'.1 (h.0 refl))
same_choice false false h h' = refl

module _ {f : Float} (doc : IsFloat f) (m : Rom) (rom : IsRom m) where
  -- The release pass and the passes after it, from the button and the globals after the hold.
  after_hold :
      (held : NewButton Callback) (s : Kitchen (fader_board f m)) (now start : ℕ) (us : List ℕ)
      → (run held (released now (reading start) ∷ [])).1 ≡ on_btn_short_release ∷ []
      → IsIdle (run held (released now (reading start) ∷ [])).0
      → (loops (fader_board f m) (released now (reading start) ∷ rests us) (held, s)).1
        ≡ passes_at
            (fader_board f m)
            (map reading (start ∷ us))
            (short_release_handler (fader_board f m) (record s { clock = reading start }))
  unfolding run loops loop passes_at
  after_hold held s now start us called idle' =
      let r = released now (reading start) in
      let btn = (process false now (reading start) held).0 in
      let s1 = (loop (fader_board f m) false now (reading start) (held, s)).1 in
      let (_, none') = run_rest (rests us) btn idle' (rests-AllDown us) in
      loops-passes_at (fader_board f m) (rests us) btn s1 none'
      ∙ ap (λ ns. passes_at (fader_board f m) ns s1) (later_rests us)
      ∙ ap (passes_at (fader_board f m) (map reading us))
          (loop-short_release (fader_board f m) r held s (sym (append-nil _) ∙ called))

  -- What the polls from the release on call, and the button after them.
  tail_run :
      (held : NewButton Callback) (now start : ℕ) (us : List ℕ)
      → (run held (released now (reading start) ∷ [])).1 ≡ on_btn_short_release ∷ []
      → IsIdle (run held (released now (reading start) ∷ [])).0
      → let (btn', calls) = run held (released now (reading start) ∷ rests us) in
        IsIdle btn' × (calls ≡ on_btn_short_release ∷ [])
  unfolding run
  tail_run held now start us called idle' =
      let btn = (process false now (reading start) held).0 in
      let (done, none') = run_rest (rests us) btn idle' (rests-AllDown us) in
      (done, rw none' called)

  -- Passes go on from the button after the hold.
  from_hold :
      (btn : NewButton Callback) (s : Kitchen (fader_board f m)) (hold tail : List Poll)
      → loops (fader_board f m) (hold ++ tail) (btn, s)
        ≡ loops (fader_board f m) tail ((run btn hold).0, (loops (fader_board f m) hold (btn, s)).1)
  from_hold btn s hold tail =
      loops-append (fader_board f m) hold tail (btn, s)
      ∙ ap (λ x. loops (fader_board f m) tail (x, (loops (fader_board f m) hold (btn, s)).1))
          (loops_button (fader_board f m) hold btn s)

  -- The calls over the hold of a short press, and at its release.
  short_calls :
      (btn : NewButton Callback) (from to last now later : ℕ) (ps : List Poll)
      → btn.callbacks ≡ kitchen_callbacks
      → IsIdle btn
      → btn.short_press_time ≤ btn.long_press_time
      → 0 < from % clock_mod
      → from ≤ to
      → to < from + clock_mod
      → Holds from to last ps
      → classify btn (last - from) ≡ short
      → let (held, calls) = run btn (up_at from to ∷ ps) in
        let (after, final) = run held (released now later ∷ []) in
        (calls ≡ []) × IsIdle after × (final ≡ on_btn_short_release ∷ [])
  short_calls btn from to last now later ps e i order p h l holds is_short =
      let (held, agrees, rises) = run-IsHeld btn from to last ps i order p h l holds in
      let held_b = (run btn (up_at from to ∷ ps)).0 in
      let (idle', final) = run_release btn held_b from (last - from) now later held agrees in
      (rw is_short at rises ∙ rw e refl, idle', final ∙ rw (is_short, e))

  -- Passes over a hold without calls, a release with the call of a short one, and a rest.
  hold_settles :
      (c : Rgbw) (btn : NewButton Callback) (s : Kitchen (fader_board f m)) (hold : List Poll)
      (now start : ℕ) (us : List ℕ)
      → IsByteColor s.storage.button_colors
      → Settled (laws doc m rom) c s
      → (run btn hold).1 ≡ []
      → IsIdle (run (run btn hold).0 (released now (reading start) ∷ [])).0
      → (run (run btn hold).0 (released now (reading start) ∷ [])).1 ≡ on_btn_short_release ∷ []
      → Times start (start + clock_mod) us
      → start + 2 * fade_time_ms ≤ last_of start us
      → let polls = hold ++ (released now (reading start) ∷ rests us) in
        let (btn', s') = loops (fader_board f m) polls (btn, s) in
        IsIdle btn'
        × (on : Bool) × Settled
            (laws doc m rom)
            (if on then s.storage.button_colors else no_color)
            s'
        × Switched (laws doc m rom) on s s'
        × ((on ≡ false) ↔ (c ≡ s.storage.button_colors))
  hold_settles c btn s hold now start us byte settled silent idle' called times late =
      let held = (run btn hold).0 in
      let polls = hold ++ (released now (reading start) ∷ rests us) in
      let (done, calls) = tail_run held now start us called idle' in
      let ran = run-append btn hold (released now (reading start) ∷ rests us) in
      let one : (run btn polls).1 ≡ on_btn_short_release ∷ [] = rw (ran, silent) calls in
      let (on, switched, chosen) = loops_short (laws doc m rom) polls btn s one byte in
      let s1 = (loops (fader_board f m) hold (btn, s)).1 in
      let kept = loops_none (laws doc m rom) hold btn s silent in
      let (on', settled', chosen') =
        release_settles_soon doc m rom c start (start ∷ us) s1 (rw kept.same_storage byte)
          (kept.settled c settled) (omega arith, omega arith, times) late in
      let s' = (loops (fader_board f m) polls (btn, s)).1 in
      let same_state : s'
          ≡ passes_at (fader_board f m) (map reading (start ∷ us))
              (short_release_handler (fader_board f m) (record s1 { clock = reading start })) =
        ap (λ d. d.1) (from_hold btn s hold (released now (reading start) ∷ rests us))
        ∙ after_hold held s1 now start us called idle' in
      let same_on : on' ≡ on =
        same_choice on on' (chosen c settled)
          (subst (λ x. (on' ≡ false) ↔ (c ≡ x.button_colors)) kept.same_storage chosen') in
      let same_color : (if on' then s1.storage.button_colors else no_color)
          ≡ (if on then s.storage.button_colors else no_color) =
        rw (same_on, kept.same_storage) in
      (
        rw (loops_button (fader_board f m) polls btn s, ran) done,
        on,
        subst (λ x. Settled (laws doc m rom) x s') same_color
            (subst (Settled (laws doc m rom) _) (sym same_state) settled'),
        switched,
        chosen c settled,
      )

  -- With the documented arithmetic of `float`, a memory that behaves as documented and a stored button
  -- colour of bytes: passes of the main loop over a whole press of the idle Kitchen button that lasts
  -- for a short one, and over polls without a press at any times in order that are less than 2 ^ 32
  -- milliseconds after the release, the last of them at least twice the time of the fade after it.
  -- If the faders were at rest at a colour without a transition, they are at rest without one again,
  -- at black exactly if the colour was the stored one and otherwise at that; the press told the
  -- controller which, once for each kind of LED, mode and storage are as before, and the button is
  -- idle. The press is as in `run_press`.
  pub short_press_settles :
      (c : Rgbw) (btn : NewButton Callback) (s : Kitchen (fader_board f m))
      (from to last now start : ℕ) (ps : List Poll) (us : List ℕ)
      → btn.callbacks ≡ kitchen_callbacks
      → IsByteColor s.storage.button_colors
      → Settled (laws doc m rom) c s
      → IsIdle btn
      → btn.short_press_time ≤ btn.long_press_time
      → 0 < from % clock_mod
      → from ≤ to
      → to < from + clock_mod
      → Holds from to last ps
      → classify btn (last - from) ≡ short
      → Times start (start + clock_mod) us
      → start + 2 * fade_time_ms ≤ last_of start us
      → let polls = up_at from to ∷ (ps ++ (released now (reading start) ∷ rests us)) in
        let (btn', s') = loops (fader_board f m) polls (btn, s) in
        IsIdle btn'
        × (on : Bool) × Settled
            (laws doc m rom)
            (if on then s.storage.button_colors else no_color)
            s'
        × Switched (laws doc m rom) on s s'
        × ((on ≡ false) ↔ (c ≡ s.storage.button_colors))
  short_press_settles c btn s from to last now start ps us e byte settled i order p h l holds
        is_short times late =
      let (silent, idle', called) =
        short_calls btn from to last now (reading start) ps e i order p h l holds is_short in
      hold_settles c btn s (up_at from to ∷ ps) now start us byte settled silent idle' called times
        late
