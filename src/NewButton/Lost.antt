-- ===== src/NewButton/Lost.antt =====
-- A press that begins when millis() reads 0.
use smarthouse_arduino.Base.{ℕ, ◌≡◌, true, false, List, [], ◌∷◌, ◌++◌, arith}
use smarthouse_arduino.NewButton.{idle, NewButton, process}
use smarthouse_arduino.NewButton.Hold.{IsIdle}
use smarthouse_arduino.NewButton.Press.{Poll, released, AllUp, run}

module _ {A : Type 0} where
  -- The state of a press at a reading of 0.
  record IsLost (b : NewButton A) : Type 0 where
    up : b.prev_status ≡ true
    no_time : b.pressed_time ≡ 0
    idle_status : b.press_status ≡ idle
    idle_before : b.prev_press_status ≡ idle

  process-IsLost :
      (b : NewButton A) (now later : ℕ)
      → IsLost b
      → IsLost (process true now later b).0 × ((process true now later b).1 ≡ [])
  unfolding process
  process-IsLost b now later h = ground arith

  release_lost :
      (b : NewButton A) (now later : ℕ)
      → IsLost b
      → IsIdle (process false now later b).0 × ((process false now later b).1 ≡ [])
  unfolding process
  release_lost b now later h = ground arith

  press-IsLost :
      (b : NewButton A) (to : ℕ)
      → IsIdle b
      → IsLost (process true 0 to b).0 × ((process true 0 to b).1 ≡ [])
  unfolding process
  press-IsLost b to h = ground arith

  run_lost :
      (b : NewButton A) (now later : ℕ) (ps : List Poll)
      → IsLost b
      → AllUp ps
      → IsIdle (run b (ps ++ released now later ∷ [])).0
        × ((run b (ps ++ released now later ∷ [])).1 ≡ [])
  unfolding run
  run_lost b now later [] h u = let (i, none') = release_lost b now later h in (i, rw none')
  run_lost b now later (p ∷ ps) h u =
      let (h', none') = process-IsLost b p.now p.later h in
      let (i, rest) = run_lost (process true p.now p.later b).0 now later ps h' u.1 in
      rw (u.0, none') (i, rest)

  -- A press of an idle button at a reading of 0 of millis() calls nothing until the release, however
  -- long it is held, and leaves the button idle.
  pub run_press_at_zero :
      (b : NewButton A) (to now later : ℕ) (ps : List Poll)
      → IsIdle b
      → AllUp ps
      → let pressed : Poll = record { status = true; now = 0; later = to } in
        let (after, calls) = run b (pressed ∷ (ps ++ released now later ∷ [])) in
        IsIdle after × (calls ≡ [])
  unfolding run
  run_press_at_zero b to now later ps i u =
      let (h, none') = press-IsLost b to i in
      let (i', rest) = run_lost (process true 0 to b).0 now later ps h u in rw none' (i', rest)
