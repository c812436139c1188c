-- ===== src/Kitchen/Holding.antt =====
-- The Kitchen button and its callbacks together: passes of the main loop over a whole press.
use smarthouse_arduino.Kitchen.Loops.{loops, loops_none, loops_button, loops_long, loops_short}
use smarthouse_arduino.Base.{
  ℕ, ◌+◌, ◌-◌, ◌%◌, ◌≤◌, ◌<◌, ◌≡◌, refl, ◌∙◌, inl, inr, Bool, true, false, ◌↔◌, some, List, [], ◌∷◌,
  ◌++◌,
}
use smarthouse_arduino.Kitchen.Board.{Board, IsBoard}
use smarthouse_arduino.Kitchen.Sketch.{Callback, on_btn_short_release, on_btn_long_press}
use smarthouse_arduino.Kitchen.State.{Kitchen}
use smarthouse_arduino.Kitchen.Types.{Rgbw, IsByteColor}
use smarthouse_arduino.NewButton.{NewButton, Status, idle, short, long, no_callbacks, Callbacks}
use smarthouse_arduino.NewButton.Hold.{clock_mod, classify, IsIdle}
use smarthouse_arduino.NewButton.Calls.{PressCalls}
use smarthouse_arduino.NewButton.Press.{Poll, Holds, released, run, run_press}
use smarthouse_arduino.Kitchen.Outcomes.{Settled, Cycled, Switched}

-- Without a callback on a long release, a long press makes one call.
long_calls :
    (c : Callbacks Callback) (calls : List Callback)
    → c ≡ record no_callbacks {
      on_long_press = some on_btn_long_press;
      on_short_release = some on_btn_short_release;
    }
    → PressCalls c long calls
    → calls ≡ on_btn_long_press ∷ []
long_calls c calls e (inl h) = rw (h, e) refl
long_calls c calls e (inr h) = rw (h, e) refl

module _ {b : Board} (doc : IsBoard b) where
  -- What a press does, by the press status at its last poll before the release.
  abbrev pub Outcome : Status → Kitchen b → Kitchen b → Type 0
  Outcome idle s s' =
      (s'.button_mode ≡ s.button_mode) × (s'.storage ≡ s.storage) × (s'.sent ≡ s.sent)
  Outcome short s s' = (on : Bool) × Switched doc on s s'
  Outcome long s s' = Cycled doc s s'

  outcome_lem :
      (ps : List Poll) (btn : NewButton Callback) (s : Kitchen b) (held : Status)
      → btn.callbacks ≡ record no_callbacks {
        on_long_press = some on_btn_long_press;
        on_short_release = some on_btn_short_release;
      }
      → IsByteColor s.storage.button_colors
      → PressCalls btn.callbacks held (run btn ps).1
      → Outcome held s (loops b ps (btn, s)).1
  outcome_lem ps btn s idle e byte calls =
      let kept = loops_none doc ps btn s calls in
      (kept.same_mode, kept.same_storage, kept.same_sent)
  outcome_lem ps btn s short e byte calls =
      let (on, switched, _) = loops_short doc ps btn s (calls ∙ rw e refl) byte in (on, switched)
  outcome_lem ps btn s long e byte calls =
      loops_long doc ps btn s (long_calls btn.callbacks _ e calls) byte

  module _ (btn : NewButton Callback) (s : Kitchen b) (from to last now later : ℕ) (ps : List Poll)
      (e : btn.callbacks ≡ record no_callbacks {
        on_long_press = some on_btn_long_press;
        on_short_release = some on_btn_short_release;
      })
      (byte : IsByteColor s.storage.button_colors) (i : IsIdle btn)
      (order : btn.short_press_time ≤ btn.long_press_time) (p : 0 < from % clock_mod)
      (h : from ≤ to) (l : to < from + clock_mod) (holds : Holds from to last ps) where
    -- The polls of the press, from the reading `from % clock_mod` on, with the release.
    abbrev pub pressing : List Poll
    pressing =
        let pressed : Poll = record {
          status = true;
          now = from % clock_mod;
          later = to % clock_mod;
        } in
        pressed ∷ (ps ++ released now later ∷ [])

    -- With a stored button colour of bytes and a board that behaves as documented: passes of the main
    -- loop over a whole press of the idle Kitchen button leave it idle, and the storage as it was. A
    -- press that lasts for a long one brings the LEDs to the part of the stored button colour that
    -- the mode asks for, with no transition, reports it and goes to the next mode (from both to colour,
    -- from that to white, and from that to both); one that lasts
    -- for a short one brings them to that whole colour or to black, with no transition, reports
    -- that and stays in the mode; one that is shorter tells nothing and stays in the mode. The press
    -- is as in `run_press`.
    pub whole_press :
        let (btn', s') = loops b pressing (btn, s) in
        IsIdle btn' × Outcome (classify btn (last - from)) s s'
    whole_press =
        let (done, calls) = run_press btn from to last now later ps i order p h l holds in
        (
          rw (loops_button b pressing btn s) done,
          outcome_lem pressing btn s (classify btn (last - from)) e byte calls,
        )

    -- If the LEDs are at rest at some colour without a transition before a whole press that lasts for a
    -- short one, then that press brings them to black exactly if the colour was the stored button
    -- colour, and otherwise to that colour; it reports which, keeps mode and storage, and the button
    -- is idle again. The stored button colour has bytes, the board behaves as documented, and the
    -- press is as in `run_press`.
    pub toggling_press :
        (c : Rgbw)
        → Settled doc c s
        → classify btn (last - from) ≡ short
        → let (btn', s') = loops b pressing (btn, s) in
          IsIdle btn'
          × (on : Bool) × Switched doc on s s'
          × ((on ≡ false) ↔ (c ≡ s.storage.button_colors))
    toggling_press c r is_short =
        let (done, calls) = run_press btn from to last now later ps i order p h l holds in
        let one : (run btn pressing).1 ≡ on_btn_short_release ∷ [] =
          rw is_short at calls ∙ rw e refl in
        let (on, switched, chosen) = loops_short doc pressing btn s one byte in
        (rw (loops_button b pressing btn s) done, on, switched, chosen c r)
