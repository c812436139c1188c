-- ===== src/LedFader/Turning.antt =====
-- A looping transition of the Kitchen sketch over the faders.
use smarthouse_arduino.Base.{
  ℕ, ◌+◌, ◌%◌, ◌≤◌, ◌<◌, ◌≡◌, ◌≢◌, refl, ap, ◌∙◌, inl, inr, true, List, [], ◌∷◌, map, arith, ◌==◌,
  ==_refl,
}
use smarthouse_arduino.Kitchen.Leds.{leds_start_transition, leds_fade_from, is_leds_at}
use smarthouse_arduino.Kitchen.Passes.{leds, shows, updated_at, TurnsWithin, Waiting, passes-cases}
use smarthouse_arduino.Kitchen.State.{Kitchen, trans_run}
use smarthouse_arduino.Kitchen.Types.{LedType, color, white, IsByteColor}
use smarthouse_arduino.LedFader.{Float, IsFloat, get_value}
use smarthouse_arduino.LedFader.Completion.{fade_completes}
use smarthouse_arduino.LedFader.Fade.{tick_at, Times, last_of}
use smarthouse_arduino.LedFader.Implements.{Rom, Led, fader_board}
use smarthouse_arduino.LedFader.Steps.{updates}
use smarthouse_arduino.NewButton.Hold.{clock_mod}

abbrev pub reading : ℕ → ℕ
reading u = u % clock_mod

module _ {f : Float} (doc : IsFloat f) (m : Rom) where
  -- Updates of a LED of the board are those of its fader.
  pub updated_at-updates :
      (us : List ℕ) (l : Led f)
      → (updated_at (fader_board f m) (map reading us) l).0 ≡ updates doc (map tick_at us) l.0
  unfolding updates
  updated_at-updates [] l = refl
  updated_at-updates (u ∷ us) l = updated_at-updates us ((fader_board f m).update (reading u) l)

  -- A fade of one LED from a level to another, and its updates until it is over.
  led_arrives :
      (start from v time : ℕ) (us : List ℕ) (l : Led f)
      → v < 256
      → Times start (start + clock_mod) us
      → let begun =
          (fader_board f m).fade (reading start) v time ((fader_board f m).set_value from l) in
        start + time + begun.0.interval ≤ last_of start us
        → (fader_board f m).get_value (updated_at (fader_board f m) (map reading us) begun) ≡ v
  led_arrives start from v time us l byte times late =
      let aimed = (fader_board f m).set_value from l in
      let begun = (fader_board f m).fade (reading start) v time aimed in
      let (arrived, _) =
        fade_completes doc start v (time % clock_mod) us aimed.0 aimed.1 byte (omega arith) times
          (omega (arith, late)) in
      ap (get_value f) (updated_at-updates us begun) ∙ arrived

  -- The faders of one kind of LED, and the time at which the last of them is surely over.
  abbrev pub AllLate : ℕ → ℕ → List (Led f) → Type 0
  AllLate end last [] = Unit {0}
  AllLate end last (l ∷ ls) = (end + l.0.interval ≤ last) × AllLate end last ls

  -- A transition that starts at the true time `start`.
  abbrev pub started : LedType → ℕ → Kitchen (fader_board f m) → Kitchen (fader_board f m)
  started t start s =
      leds_start_transition (fader_board f m) t true (record s { clock = reading start })

  -- A LED of the waiting globals shows the level of its fade.
  level_of :
      (start from v time : ℕ) (us : List ℕ) (l l' : Led f)
      → v < 256
      → Times start (start + clock_mod) us
      → let begun =
          (fader_board f m).fade (reading start) v time ((fader_board f m).set_value from l) in
        start + time + begun.0.interval ≤ last_of start us
        → l' ≡ updated_at (fader_board f m) (map reading us) begun
        → ((fader_board f m).get_value l' == v) ≡ true
  level_of start from v time us l l' byte times late e =
      rw (e, led_arrives start from v time us l byte times late, ==_refl v)

  started_arrives :
      (t : LedType) (start : ℕ) (us : List ℕ) (s s' : Kitchen (fader_board f m))
      → IsByteColor (trans_run (fader_board f m) t s).transition.stop
      → Times start (start + clock_mod) us
      → AllLate
          (start + (trans_run (fader_board f m) t s).transition.time)
          (last_of start us)
          (leds (fader_board f m) t (started t start s))
      → Waiting (fader_board f m) t (map reading us) (started t start s) s'
      → shows (fader_board f m) t s' ≡ true
  unfolding leds_start_transition leds_fade_from is_leds_at
  started_arrives color start us s s' byte times (late_r, (late_g, (late_b, _))) w =
      let x = s.trans_color.transition in
      let r =
        level_of start x.start.r x.stop.r x.time us s.led_r s'.led_r byte.0 times late_r
          (cc w.all_updated) in
      let g =
        level_of start x.start.g x.stop.g x.time us s.led_g s'.led_g byte.1 times late_g
          (cc w.all_updated) in
      let b =
        level_of start x.start.b x.stop.b x.time us s.led_b s'.led_b byte.2 times late_b
          (cc w.all_updated) in
      rw (w.same_transition, r, g, b)
  started_arrives white start us s s' byte times (late, _) w =
      let x = s.trans_white.transition in
      rw (
        w.same_transition,
        level_of start x.start.w x.stop.w x.time us s.led_w s'.led_w byte.3 times late
            (cc w.all_updated),
      )

  started_loops :
      (t : LedType) (start : ℕ) (s : Kitchen (fader_board f m))
      → (trans_run (fader_board f m) t s).transition.is_loop ≡ true
      → ((trans_run (fader_board f m) t (started t start s)).running ≡ true)
        × ((trans_run (fader_board f m) t (started t start s)).transition.is_loop ≡ true)
  unfolding leds_start_transition leds_fade_from
  started_loops color start s l = (refl, l)
  started_loops white start s l = (refl, l)

  some_pass :
      (t : LedType) (start : ℕ) (us : List ℕ) (s : Kitchen (fader_board f m))
      → 0 < (trans_run (fader_board f m) t s).transition.time
      → AllLate
          (start + (trans_run (fader_board f m) t s).transition.time)
          (last_of start us)
          (leds (fader_board f m) t (started t start s))
      → map reading us ≢ []
  some_pass color start [] s time (late, _) = λ e. omega (arith, late, time)
  some_pass white start [] s time (late, _) = λ e. omega (arith, late, time)
  some_pass t start (u ∷ us) s time late = λ e. cc e

  -- With the documented arithmetic of `float`: a looping transition of byte colours that is started over
  -- the faders turns within the passes of `leds_process`, at any times in order that are less than
  -- 2 ^ 32 milliseconds after its start, if the last pass is at least the transition's time and an
  -- interval of each of its faders after the start.
  pub transition_turns_in_time :
      (t : LedType) (start : ℕ) (us : List ℕ) (s : Kitchen (fader_board f m))
      → (trans_run (fader_board f m) t s).transition.is_loop ≡ true
      → IsByteColor (trans_run (fader_board f m) t s).transition.stop
      → 0 < (trans_run (fader_board f m) t s).transition.time
      → Times start (start + clock_mod) us
      → AllLate
          (start + (trans_run (fader_board f m) t s).transition.time)
          (last_of start us)
          (leds (fader_board f m) t (started t start s))
      → TurnsWithin (fader_board f m) t (map reading us) (started t start s)
  transition_turns_in_time t start us s looping byte time times late =
      elim (passes-cases (fader_board f m) t (map reading us) (started t start s)
        (started_loops t start s looping)) [
          | inl turns ↦ turns
          | inr w ↦ elim w.not_there [
            | inl no_pass ↦ absurd (some_pass t start us s time late no_pass)
            | inr other ↦ cc (other, started_arrives t start us s _ byte times late w)
          ]
        ]
