-- ===== src/NewButton/Press.antt =====
-- A whole press, from the poll that sees the pin go up to the poll that sees it go down.
use mathlib.Core.List.{append_assoc, append-nil}
use smarthouse_arduino.Base.{
  ℕ, ◌+◌, ◌-◌, ◌%◌, ◌≤◌, ◌<◌, ◌≡◌, refl, ◌∙◌, Bool, true, false, List, [], ◌∷◌, ◌++◌, arith,
}
use smarthouse_arduino.NewButton.{idle, NewButton, process, on_release}
use smarthouse_arduino.NewButton.Hold.{
  clock_mod, classify, Agrees, IsIdle, IsHeld, press_lem, held_lem, release_lem,
}
use smarthouse_arduino.NewButton.Calls.{
  Rises, Rises-refl, Rises-step, classify-Above, PressCalls, Rises-release,
}

-- The pin's level and the two readings of millis() of a poll.
pub record Poll : Type 0 where
  pub status : Bool
  pub now : ℕ
  pub later : ℕ

-- Polls at true times, each with the pin up: the first not before `t`, the last one at `last`, all
-- within the range of the counter from the press at `from`.
pub data Holds (from : ℕ) : ℕ → ℕ → List Poll → Type 0 where
  done : {t : ℕ} → Holds from t t []
  poll :
      {t last : ℕ} {ps : List Poll} (now u : ℕ)
      → t ≤ u
      → u < from + clock_mod
      → Holds from u last ps
      → Holds from t last (record { status = true; now = now; later = u % clock_mod } ∷ ps)

abbrev pub released : ℕ → ℕ → Poll
released now later = record { status = false; now = now; later = later }

-- The poll that sees the press at the true time `from`, and reads the clock again at `to`.
abbrev pub up_at : ℕ → ℕ → Poll
up_at from to = record { status = true; now = from % clock_mod; later = to % clock_mod }

abbrev pub AllUp : List Poll → Type 0
AllUp [] = Unit {0}
AllUp (p ∷ ps) = (p.status ≡ true) × AllUp ps

module _ {A : Type 0} where
  unfoldable pub run : NewButton A → List Poll → NewButton A × List A
  run b [] = (b, [])
  run b (p ∷ ps) =
      let (b', calls) = process p.status p.now p.later b in
      let (last, more) = run b' ps in (last, calls ++ more)

  pub classify-Agrees : (b b' : NewButton A) (d : ℕ) → Agrees b b' → classify b' d ≡ classify b d
  classify-Agrees b b' d a = rw (a.same_short, a.same_long)

  pub Agrees-trans : {x y z : NewButton A} → Agrees x y → Agrees y z → Agrees x z
  Agrees-trans p q = record {
    same_short = q.same_short ∙ p.same_short;
    same_long = q.same_long ∙ p.same_long;
    same_callbacks = q.same_callbacks ∙ p.same_callbacks;
  }

  -- The status that a poll leaves, by the configuration that it leaves.
  run-Holds :
      (b : NewButton A) (from t last : ℕ) (ps : List Poll)
      → from ≤ t
      → b.short_press_time ≤ b.long_press_time
      → IsHeld b from (t - from)
      → Holds from t last ps
      → IsHeld (run b ps).0 from (last - from)
        × Agrees b (run b ps).0
        × Rises b.callbacks (classify b (t - from)) (classify b (last - from)) (run b ps).1
  unfolding run
  run-Holds b from t last [] h o i done = (
    i,
    record { same_short = refl; same_long = refl; same_callbacks = refl },
    Rises-refl b.callbacks (classify b (t - from)),
  )
  run-Holds b from t last (p ∷ ps) h o i (poll now u late soon rest) =
      let (held, agrees, calls) = held_lem b from (t - from) now u i o (omega arith) soon in
      let b' = (process true now (u % clock_mod) b).0 in
      let o' : b'.short_press_time ≤ b'.long_press_time =
        rw (agrees.same_short, agrees.same_long) o in
      let (held', agrees', rises) = run-Holds b' from u last ps (omega arith) o' held rest in
      (
        held',
        Agrees-trans agrees agrees',
        rw calls (
            Rises-step b.callbacks (classify b (t - from)) (classify b (u - from))
              (classify b (last - from)) _ (classify-Above b (t - from) (u - from) o (omega arith))
              (rw
                (
                  agrees.same_callbacks,
                  classify-Agrees b b' (u - from) agrees,
                  classify-Agrees b b' (last - from) agrees,
                )
                at rises)),
      )

  pub run-append :
      (b : NewButton A) (ps qs : List Poll)
      → run b (ps ++ qs) ≡ ((run (run b ps).0 qs).0, (run b ps).1 ++ (run (run b ps).0 qs).1)
  unfolding run
  run-append b [] qs = refl
  run-append b (p ∷ ps) qs =
      let (b', calls) = process p.status p.now p.later b in rw (run-append b' ps qs, append_assoc)

  -- The hold of a press, up to the last poll before the release.
  pub run-IsHeld :
      (b : NewButton A) (from to last : ℕ) (ps : List Poll)
      → IsIdle b
      → b.short_press_time ≤ b.long_press_time
      → 0 < from % clock_mod
      → from ≤ to
      → to < from + clock_mod
      → Holds from to last ps
      → let (held, calls) = run b (up_at from to ∷ ps) in
        IsHeld held from (last - from)
        × Agrees b held
        × Rises b.callbacks idle (classify b (last - from)) calls
  unfolding run
  run-IsHeld b from to last ps i o p h l holds =
      let (held, agrees, first) = press_lem b from to i p h l in
      let b' = (process true (from % clock_mod) (to % clock_mod) b).0 in
      let o' : b'.short_press_time ≤ b'.long_press_time =
        rw (agrees.same_short, agrees.same_long) o in
      let (held', agrees', rises) = run-Holds b' from to last ps h o' held holds in
      let rises' : Rises b.callbacks (classify b (to - from)) (classify b (last - from))
          (run b' ps).1 =
        rw
          (
            agrees.same_callbacks,
            classify-Agrees b b' (to - from) agrees,
            classify-Agrees b b' (last - from) agrees,
          )
          at rises in
      (
        held',
        Agrees-trans agrees agrees',
        rw first (
            Rises-step b.callbacks idle (classify b (to - from)) (classify b (last - from))
              (run b' ps).1 tt rises'),
      )

  -- The release of a press that was held.
  pub run_release :
      (b held : NewButton A) (from d now later : ℕ)
      → IsHeld held from d
      → Agrees b held
      → let (after, calls) = run held (released now later ∷ []) in
        IsIdle after × (calls ≡ on_release (classify b d) b.callbacks)
  unfolding run
  run_release b held from d now later h agrees =
      let (idle', _, final) = release_lem held from d now later h in
      (idle', rw (append-nil, final, classify-Agrees b held d agrees, agrees.same_callbacks))

  -- A press of an idle button whose short time is at most its long time, from the true time `from` and
  -- last polled at `last`, makes the calls of the press status that `last - from` milliseconds have,
  -- and leaves the button idle, also if millis() wraps meanwhile. The reading at the press is not 0,
  -- and every poll before the release is less than 2 ^ 32 milliseconds after it.
  pub run_press :
      (b : NewButton A) (from to last now later : ℕ) (ps : List Poll)
      → IsIdle b
      → b.short_press_time ≤ b.long_press_time
      → 0 < from % clock_mod
      → from ≤ to
      → to < from + clock_mod
      → Holds from to last ps
      → let pressed : Poll = record {
        status = true;
        now = from % clock_mod;
        later = to % clock_mod;
      } in
        let (after, calls) = run b (pressed ∷ (ps ++ released now later ∷ [])) in
        IsIdle after × PressCalls b.callbacks (classify b (last - from)) calls
  run_press b from to last now later ps i o p h l holds =
      let (held, agrees, rises) = run-IsHeld b from to last ps i o p h l holds in
      let held_b = (run b (up_at from to ∷ ps)).0 in
      let (idle', final) = run_release b held_b from (last - from) now later held agrees in
      rw (run-append b (up_at from to ∷ ps) (released now later ∷ []), final)
        (idle', Rises-release b.callbacks (classify b (last - from)) _ rises)
