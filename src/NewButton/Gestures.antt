-- ===== src/NewButton/Gestures.antt =====
-- Whole histories of a button: rests, presses and lost presses, one after the other.
use smarthouse_arduino.Base.{
  ℕ, ◌+◌, ◌-◌, ◌%◌, ◌≤◌, ◌<◌, ◌≡◌, refl, sym, true, false, List, [], ◌∷◌, ◌++◌, arith,
}
use smarthouse_arduino.NewButton.{NewButton, process}
use smarthouse_arduino.NewButton.Hold.{clock_mod, classify, Agrees, IsIdle}
use smarthouse_arduino.NewButton.Lost.{run_press_at_zero}
use smarthouse_arduino.NewButton.Calls.{PressCalls}
use smarthouse_arduino.NewButton.Press.{
  Poll, Holds, released, AllUp, run, run_press, run-append, classify-Agrees, Agrees-trans,
}

-- Polls with the pin down; a press at the true time `from`, polled until `last`, and its release; a
-- press that begins when millis() reads 0, and its release.
pub data Gesture : Type 0 where
  rest : List Poll → Gesture
  press : (from to last now later : ℕ) → List Poll → Gesture
  press_at_zero : (to now later : ℕ) → List Poll → Gesture

abbrev pub polls_of : Gesture → List Poll
polls_of (rest ps) = ps
polls_of (press from to last now later ps) =
    record { status = true; now = from % clock_mod; later = to % clock_mod }
    ∷ (ps ++ released now later ∷ [])
polls_of (press_at_zero to now later ps) =
    record { status = true; now = 0; later = to } ∷ (ps ++ released now later ∷ [])

abbrev pub all_polls : List Gesture → List Poll
all_polls [] = []
all_polls (g ∷ gs) = polls_of g ++ all_polls gs

abbrev pub AllDown : List Poll → Type 0
AllDown [] = Unit {0}
AllDown (p ∷ ps) = (p.status ≡ false) × AllDown ps

-- The polls are those of the gesture, at true times.
abbrev pub IsReal : Gesture → Type 0
IsReal (rest ps) = AllDown ps
IsReal (press from to last now later ps) =
    (0 < from % clock_mod) × (from ≤ to) × (to < from + clock_mod) × Holds from to last ps
IsReal (press_at_zero to now later ps) = AllUp ps

abbrev pub AllReal : List Gesture → Type 0
AllReal [] = Unit {0}
AllReal (g ∷ gs) = IsReal g × AllReal gs

module _ {A : Type 0} where
  abbrev pub Makes : NewButton A → Gesture → List A → Type 0
  Makes b (rest ps) calls = calls ≡ []
  Makes b (press from to last now later ps) calls =
      PressCalls b.callbacks (classify b (last - from)) calls
  Makes b (press_at_zero to now later ps) calls = calls ≡ []

  -- The calls of the gestures, in their order.
  abbrev pub AllMake : NewButton A → List Gesture → List A → Type 0
  AllMake b [] calls = calls ≡ []
  AllMake b (g ∷ gs) calls =
      (first : List A) × (others : List A) × (calls ≡ first ++ others)
      × Makes b g first
      × AllMake b gs others

  process-Agrees : (p : Poll) (b : NewButton A) → Agrees b (process p.status p.now p.later b).0
  unfolding process
  process-Agrees p b = record {
    same_short = ground arith;
    same_long = ground arith;
    same_callbacks = ground arith;
  }

  run-Agrees : (ps : List Poll) (b : NewButton A) → Agrees b (run b ps).0
  unfolding run
  run-Agrees [] b = record { same_short = refl; same_long = refl; same_callbacks = refl }
  run-Agrees (p ∷ ps) b =
      Agrees-trans (process-Agrees p b) (run-Agrees ps (process p.status p.now p.later b).0)

  Makes-Agrees :
      (b b' : NewButton A) (g : Gesture) (calls : List A)
      → Agrees b b'
      → Makes b' g calls
      → Makes b g calls
  Makes-Agrees b b' (rest ps) calls a h = h
  Makes-Agrees b b' (press from to last now later ps) calls a h =
      rw (sym a.same_callbacks, sym (classify-Agrees b b' (last - from) a)) h
  Makes-Agrees b b' (press_at_zero to now later ps) calls a h = h

  AllMake-Agrees :
      (b b' : NewButton A) (gs : List Gesture) (calls : List A)
      → Agrees b b'
      → AllMake b' gs calls
      → AllMake b gs calls
  AllMake-Agrees b b' [] calls a h = h
  AllMake-Agrees b b' (g ∷ gs) calls a (first, others, whole, h, hs) =
      (first, others, whole, Makes-Agrees b b' g first a h, AllMake-Agrees b b' gs others a hs)

  down_lem :
      (b : NewButton A) (now later : ℕ)
      → IsIdle b
      → IsIdle (process false now later b).0 × ((process false now later b).1 ≡ [])
  unfolding process
  down_lem b now later i = ground arith

  pub run_rest :
      (ps : List Poll) (b : NewButton A)
      → IsIdle b
      → AllDown ps
      → IsIdle (run b ps).0 × ((run b ps).1 ≡ [])
  unfolding run
  run_rest [] b i d = (i, refl)
  run_rest (p ∷ ps) b i d =
      let (i', none') = down_lem b p.now p.later i in
      let (i'', rest') = run_rest ps (process false p.now p.later b).0 i' d.1 in
      rw (d.0, none') (i'', rest')

  run_gesture :
      (b : NewButton A) (g : Gesture)
      → IsIdle b
      → b.short_press_time ≤ b.long_press_time
      → IsReal g
      → IsIdle (run b (polls_of g)).0 × Makes b g (run b (polls_of g)).1
  run_gesture b (rest ps) i o r = run_rest ps b i r
  run_gesture b (press from to last now later ps) i o (p, h, l, holds) =
      run_press b from to last now later ps i o p h l holds
  run_gesture b (press_at_zero to now later ps) i o r = run_press_at_zero b to now later ps i r

  -- An idle button whose short time is at most its long time, polled over any sequence of rests,
  -- presses and presses that begin at a reading of 0 of millis(): its calls are those of the presses,
  -- in order, each by how long it was held; a rest and a press at 0 call nothing; and it is idle again.
  pub run_gestures :
      (b : NewButton A) (gs : List Gesture)
      → IsIdle b
      → b.short_press_time ≤ b.long_press_time
      → AllReal gs
      → IsIdle (run b (all_polls gs)).0 × AllMake b gs (run b (all_polls gs)).1
  unfolding run
  run_gestures b [] i o r = (i, refl)
  run_gestures b (g ∷ gs) i o (r, rs) =
      let (i', makes) = run_gesture b g i o r in
      let b' = (run b (polls_of g)).0 in
      let a = run-Agrees (polls_of g) b in
      let (i'', more) = run_gestures b' gs i' (rw (a.same_short, a.same_long) o) rs in
      rw (run-append b (polls_of g) (all_polls gs)) (
        i'',
        (
          (run b (polls_of g)).1,
          (run b' (all_polls gs)).1,
          refl,
          makes,
          AllMake-Agrees b b' gs _ a more,
        ),
      )
