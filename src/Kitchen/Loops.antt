-- ===== src/Kitchen/Loops.antt =====
-- Passes of the Kitchen main loop with one callback at most: what the globals are at their end.
use smarthouse_arduino.Base.{
  ◌≡◌, refl, ap, subst, ◌∙◌, inl, inr, Bool, true, false, not, sym, ◌↔◌, arith, List, [], ◌∷◌, ◌++◌,
  map, append_none, append_one,
}
use smarthouse_arduino.Kitchen.Board.{Board, IsBoard}
use smarthouse_arduino.Kitchen.Presses.{Shows, is_stored_equal-Lit}
use smarthouse_arduino.Kitchen.Sketch.{
  Callback, on_btn_short_release, on_btn_long_press, loop, call, call_all, short_release_handler,
  switch_leds_by_button,
}
use smarthouse_arduino.Kitchen.State.{Kitchen}
use smarthouse_arduino.Kitchen.Types.{Rgbw, button, IsByteColor}
use smarthouse_arduino.NewButton.{NewButton, process}
use smarthouse_arduino.NewButton.Press.{Poll, run}
use smarthouse_arduino.Kitchen.Outcomes.{
  Settled, Kept, Cycled, Switched, Kept-refl, Kept-trans, Kept-Cycled, Cycled-Kept, Kept-Switched,
  Switched-Kept,
}
use smarthouse_arduino.Kitchen.Polls.{pass_none, pass_long, pass_short}
use smarthouse_arduino.Kitchen.Leds.{led_values, leds_process}
use smarthouse_arduino.Kitchen.Passes.{passes_at, pass_at}
use smarthouse_arduino.Kitchen.Store.{is_stored_equal}

not-false : {x : Bool} → not x ≡ false → x ≡ true
not-false h = ground (arith, h)

same_color : {c d : Rgbw} → c.r ≡ d.r → c.g ≡ d.g → c.b ≡ d.b → c.w ≡ d.w → c ≡ d
same_color {c = c} {d = d} h h' h'' h''' = cc (h, h', h'', h''')

module _ (b : Board) where
  short_release-clock : (s : Kitchen b) → (short_release_handler b s).clock ≡ s.clock
  unfolding short_release_handler switch_leds_by_button
  short_release-clock s = ground arith

  -- Passes of the main loop, by the polls of the button.
  unfoldable pub loops : List Poll → NewButton Callback × Kitchen b → NewButton Callback × Kitchen b
  loops [] d = d
  loops (p ∷ ps) d = loops ps (loop b p.status p.now p.later d)

  pub loops_button :
      (ps : List Poll) (btn : NewButton Callback) (s : Kitchen b)
      → (loops ps (btn, s)).0 ≡ (run btn ps).0
  unfolding loops run loop
  loops_button [] btn s = refl
  loops_button (p ∷ ps) btn s =
      loops_button ps (process p.status p.now p.later btn).0
        (loop b p.status p.now p.later (btn, s)).1

  pub loops-append :
      (ps qs : List Poll) (d : NewButton Callback × Kitchen b)
      → loops (ps ++ qs) d ≡ loops qs (loops ps d)
  unfolding loops
  loops-append [] qs d = refl
  loops-append (p ∷ ps) qs d = loops-append ps qs (loop b p.status p.now p.later d)

  -- Passes without calls only process the LEDs.
  pub loops-passes_at :
      (ps : List Poll) (btn : NewButton Callback) (s : Kitchen b)
      → (run btn ps).1 ≡ []
      → (loops ps (btn, s)).1 ≡ passes_at b (map (λ (p : Poll). p.later) ps) s
  unfolding loops run loop call_all passes_at pass_at
  loops-passes_at [] btn s e = refl
  loops-passes_at (p ∷ ps) btn s e =
      let s1 = (loop b p.status p.now p.later (btn, s)).1 in
      let btn1 = (process p.status p.now p.later btn).0 in
      let (now_none, later_none) =
        append_none (process p.status p.now p.later btn).1 (run btn1 ps).1 e in
      loops-passes_at ps btn1 s1 later_none
      ∙ ap (passes_at b (map (λ (q : Poll). q.later) ps)) (rw now_none)

  -- The pass that sees a short release.
  pub loop-short_release :
      (p : Poll) (btn : NewButton Callback) (s : Kitchen b)
      → (process p.status p.now p.later btn).1 ≡ on_btn_short_release ∷ []
      → (loop b p.status p.now p.later (btn, s)).1
        ≡ pass_at b p.later (short_release_handler b (record s { clock = p.later }))
  unfolding loop call_all call pass_at
  loop-short_release p btn s e =
      let s1 : Kitchen b = record s { clock = p.later } in
      let s2 = short_release_handler b s1 in
      rw e (ap (λ c. leds_process b (record s2 { clock = c })) (short_release-clock s1))

module _ {b : Board} (doc : IsBoard b) where
  -- Over passes without calls.
  pub loops_none :
      (ps : List Poll) (btn : NewButton Callback) (s : Kitchen b)
      → (run btn ps).1 ≡ []
      → Kept doc s (loops b ps (btn, s)).1
  unfolding loops run loop
  loops_none [] btn s e = Kept-refl doc s
  loops_none (p ∷ ps) btn s e =
      let (now_none, later_none) = append_none _ _ e in
      let s1 = (loop b p.status p.now p.later (btn, s)).1 in
      let btn1 = (process p.status p.now p.later btn).0 in
      Kept-trans doc s s1 (loops b ps (btn1, s1)).1 (pass_none doc p btn s now_none)
        (loops_none ps btn1 s1 later_none)

  -- Over passes with one call, of a long press.
  pub loops_long :
      (ps : List Poll) (btn : NewButton Callback) (s : Kitchen b)
      → (run btn ps).1 ≡ on_btn_long_press ∷ []
      → IsByteColor s.storage.button_colors
      → Cycled doc s (loops b ps (btn, s)).1
  unfolding loops run loop
  loops_long [] btn s e byte = cc e
  loops_long (p ∷ ps) btn s e byte =
      let s1 = (loop b p.status p.now p.later (btn, s)).1 in
      let btn1 = (process p.status p.now p.later btn).0 in
      let s' = (loops b ps (btn1, s1)).1 in
      elim (append_one (process p.status p.now p.later btn).1 (run btn1 ps).1 on_btn_long_press e) [
        | inl (now_none, later_long) ↦
            let kept = pass_none doc p btn s now_none in
            Kept-Cycled doc s s1 s' kept
              (loops_long ps btn1 s1 later_long (rw kept.same_storage byte))
        | inr (now_long, later_none) ↦
            Cycled-Kept doc s s1 s' (pass_long doc p btn s now_long byte)
              (loops_none ps btn1 s1 later_none)
      ]

  -- A short release switches off, of LEDs at rest at a colour, exactly if it is the stored one.
  abbrev pub Chosen : Bool → Kitchen b → Type 0
  Chosen on s = (c : Rgbw) → Settled doc c s → (on ≡ false) ↔ (c ≡ s.storage.button_colors)

  pub settled_choice :
      (s : Kitchen b) → Chosen (not (is_stored_equal b button (led_values b s) s)) s
  settled_choice s c r =
      let (lit, back) = is_stored_equal-Lit doc s r.at_rest in
      let shown = r.shown in
      (
        λ off.
            let l = lit (not-false off) in
            same_color (sym shown.colors.0 ∙ l.0.0) (sym shown.colors.1 ∙ l.0.1)
              (sym shown.colors.2 ∙ l.0.2) (sym shown.whites ∙ l.1),
        λ same.
            let stored = subst (λ x. Shows doc x s) same shown in
            ap not (back (stored.colors, stored.whites)),
      )

  -- Over passes with one call, of a short release.
  pub loops_short :
      (ps : List Poll) (btn : NewButton Callback) (s : Kitchen b)
      → (run btn ps).1 ≡ on_btn_short_release ∷ []
      → IsByteColor s.storage.button_colors
      → (on : Bool) × Switched doc on s (loops b ps (btn, s)).1 × Chosen on s
  unfolding loops run loop
  loops_short [] btn s e byte = cc e
  loops_short (p ∷ ps) btn s e byte =
      let s1 = (loop b p.status p.now p.later (btn, s)).1 in
      let btn1 = (process p.status p.now p.later btn).0 in
      let s' = (loops b ps (btn1, s1)).1 in
      elim (append_one (process p.status p.now p.later btn).1 (run btn1 ps).1 on_btn_short_release
        e) [
          | inl (now_none, later_short) ↦
              let kept = pass_none doc p btn s now_none in
              let (on, switched, chosen) =
                loops_short ps btn1 s1 later_short (rw kept.same_storage byte) in
              (
                on,
                Kept-Switched doc on s s1 s' kept switched,
                λ c r.
                    subst (λ stored. (on ≡ false) ↔ (c ≡ stored.button_colors)) kept.same_storage
                      (chosen c (kept.settled c r)),
              )
          | inr (now_short, later_none) ↦
              let on = not (is_stored_equal b button (led_values b s) s) in
              (
                on,
                Switched-Kept doc on s s1 s' (pass_short doc p btn s now_short byte)
                    (loops_none ps btn1 s1 later_none),
                settled_choice s,
              )
        ]
