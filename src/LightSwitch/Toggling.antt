-- ===== src/LightSwitch/Toggling.antt =====
-- What a press of a relay's button does to the relay, over a whole press.
use smarthouse_arduino.Base.{
  ℕ, ◌+◌, ◌-◌, ◌%◌, ◌≤◌, ◌<◌, ◌≡◌, refl, sym, ◌∙◌, inl, inr, Bool, true, not, some, List, [], ◌∷◌,
  ◌++◌, if◌then◌else◌,
}
use smarthouse_arduino.LightSwitch.Relay.{
  Relay, RelayCallback, on_button_short_release, set_status, toggle_status, relay_calls,
  relay_process,
}
use smarthouse_arduino.NewButton.{Status, idle, short, long, Callbacks, process, same, no_callbacks}
use smarthouse_arduino.NewButton.Hold.{clock_mod, classify, IsIdle}
use smarthouse_arduino.NewButton.Calls.{PressCalls}
use smarthouse_arduino.NewButton.Press.{Poll, Holds, released, run, run_press}

-- Polls of a relay.
unfoldable pub relay_run : Relay → List Poll → Relay
relay_run r [] = r
relay_run r (p ∷ ps) = relay_run (relay_process p.status p.now p.later r) ps

abbrev flips : List RelayCallback → Bool → Bool
flips [] x = x
flips (f ∷ fs) x = flips fs (not x)

flips-append : (fs gs : List RelayCallback) (x : Bool) → flips (fs ++ gs) x ≡ flips gs (flips fs x)
flips-append [] gs x = refl
flips-append (f ∷ fs) gs x = flips-append fs gs (not x)

relay_calls_lem :
    (fs : List RelayCallback) (r : Relay)
    → r.output ≡ r.status
    → ((relay_calls fs r).status ≡ flips fs r.status)
      × ((relay_calls fs r).output ≡ (relay_calls fs r).status)
      × ((relay_calls fs r).button ≡ r.button)
unfolding relay_calls toggle_status set_status
relay_calls_lem [] r h = (refl, h, refl)
relay_calls_lem (on_button_short_release ∷ fs) r h = relay_calls_lem fs (toggle_status r) refl

relay_run_lem :
    (ps : List Poll) (r : Relay)
    → r.output ≡ r.status
    → ((relay_run r ps).status ≡ flips (run r.button ps).1 r.status)
      × ((relay_run r ps).output ≡ (relay_run r ps).status)
      × ((relay_run r ps).button ≡ (run r.button ps).0)
unfolding relay_run run relay_process
relay_run_lem [] r h = (refl, h, refl)
relay_run_lem (p ∷ ps) r h =
    let (button', calls) = process p.status p.now p.later r.button in
    let (s, o, b) = relay_calls_lem calls (record r { button = button' }) h in
    let r' = relay_calls calls (record r { button = button' }) in
    let (s', o', b') = relay_run_lem ps r' o in
    (s' ∙ rw (b, s) (sym (flips-append calls (run button' ps).1 r.status)), o', b' ∙ rw b refl)

-- The calls of a press of a button that only has a callback on a short release.
press-flips :
    (c : Callbacks RelayCallback) (s : Status) (calls : List RelayCallback) (x : Bool)
    → c ≡ record no_callbacks { on_short_release = some on_button_short_release }
    → PressCalls c s calls
    → flips calls x ≡ (if same s short then not x else x)
press-flips c idle calls x e h = rw h
press-flips c short calls x e h = rw (h, e) refl
press-flips c long calls x e (inl h) = rw (h, e) refl
press-flips c long calls x e (inr h) = rw (h, e) refl

-- A whole press, as in `run_press`, of the idle button of a relay that only has its own callback
-- toggles the relay if it is a short one, and else leaves it; the output pin shows the status, and the
-- button is idle again. The reading at the press is not 0, every poll before the release is less than 2
-- ^ 32 milliseconds after it, the pin shows the status before, and the short time is at most the long
-- time.
pub relay_press :
    (r : Relay) (from to last now later : ℕ) (ps : List Poll)
    → r.button.callbacks ≡ record no_callbacks { on_short_release = some on_button_short_release }
    → r.output ≡ r.status
    → IsIdle r.button
    → r.button.short_press_time ≤ r.button.long_press_time
    → 0 < from % clock_mod
    → from ≤ to
    → to < from + clock_mod
    → Holds from to last ps
    → let pressed : Poll = record {
      status = true;
      now = from % clock_mod;
      later = to % clock_mod;
    } in
      let r' = relay_run r (pressed ∷ (ps ++ released now later ∷ [])) in
      (r'.status
        ≡ (if same (classify r.button (last - from)) short then not r.status else r.status))
      × (r'.output ≡ r'.status)
      × IsIdle r'.button
relay_press r from to last now later ps e o i order p h l holds =
    let pressed : Poll = record { status = true; now = from % clock_mod; later = to % clock_mod } in
    let (done, calls) = run_press r.button from to last now later ps i order p h l holds in
    let (s, o', b) = relay_run_lem (pressed ∷ (ps ++ released now later ∷ [])) r o in
    (
      s ∙ press-flips r.button.callbacks (classify r.button (last - from)) _ r.status e calls,
      o',
      rw b done,
    )
