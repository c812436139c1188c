-- ===== src/Kitchen/Passes.antt =====
-- Passes of `leds_process` at given readings of millis(), until a looping transition turns.
use smarthouse_arduino.Base.{
  ℕ, ◌≡◌, ◌⊎◌, refl, ap, ◌∙◌, inl, inr, Bool, true, false, not, List, [], ◌∷◌, map, arith,
}
use smarthouse_arduino.Kitchen.Aim.{goal}
use smarthouse_arduino.Kitchen.Board.{Board}
use smarthouse_arduino.Kitchen.Leds.{
  leds_process, led_process_one, led_process_loop, leds_update, leds_fade_from, is_leds_at,
}
use smarthouse_arduino.Kitchen.State.{Kitchen, TransitionRunning, trans_run}
use smarthouse_arduino.Kitchen.Types.{LedType, color, white}

module _ (b : Board) where
  unfoldable pub pass_at : ℕ → Kitchen b → Kitchen b
  pass_at now s = leds_process b (record s { clock = now })

  unfoldable pub passes_at : List ℕ → Kitchen b → Kitchen b
  passes_at [] s = s
  passes_at (now ∷ ns) s = passes_at ns (pass_at now s)

  abbrev pub leds : LedType → Kitchen b → List b.Led
  leds color s = s.led_r ∷ (s.led_g ∷ (s.led_b ∷ []))
  leds white s = s.led_w ∷ []

  -- What an other kind of LED leaves alone.
  record Same (t : LedType) (s s' : Kitchen b) : Type 0 where
    same_leds : leds t s' ≡ leds t s
    same_run : trans_run b t s' ≡ trans_run b t s

  -- The LEDs show the goal of their transition.
  abbrev pub shows : LedType → Kitchen b → Bool
  shows t s = is_leds_at b t (goal (trans_run b t s)) s

  shows-Same : (t : LedType) (s s' : Kitchen b) → Same t s s' → shows t s' ≡ shows t s
  unfolding is_leds_at
  shows-Same color s s' k = ground (arith, k.same_leds, k.same_run)
  shows-Same white s s' k = ground (arith, k.same_leds, k.same_run)

  white-Same : (s : Kitchen b) → Same color s (led_process_one b white s)
  unfolding led_process_one leds_fade_from
  white-Same s = ground arith

  color-Same : (s : Kitchen b) → Same white s (led_process_one b color s)
  unfolding led_process_one leds_fade_from
  color-Same s = ground arith

  abbrev Looping : LedType → Kitchen b → Type 0
  Looping t s = ((trans_run b t s).running ≡ true) × ((trans_run b t s).transition.is_loop ≡ true)

  -- The transition turns, or the LEDs do not show its goal and all stays.
  abbrev Turned : LedType → Kitchen b → Kitchen b → Type 0
  Turned t s s' = (trans_run b t s').direction ≡ not (trans_run b t s).direction

  one-cases :
      (t : LedType) (s : Kitchen b)
      → Looping t s
      → Turned t s (led_process_one b t s) ⊎ ((led_process_one b t s ≡ s) × (shows t s ≡ false))
  unfolding led_process_one leds_fade_from
  one-cases color s (r, l) = ground (arith, r, l)
  one-cases white s (r, l) = ground (arith, r, l)

  -- The LEDs are updated and nothing else has changed for their kind.
  pub record Kept (t : LedType) (now : ℕ) (s s' : Kitchen b) : Type 0 where
    pub updated : leds t s' ≡ map (b.update now) (leds t s)
    pub run_kept : trans_run b t s' ≡ trans_run b t s
    pub elsewhere : shows t s' ≡ false

  lit : ℕ → Kitchen b → Kitchen b
  lit now s = leds_update b (record s { clock = now })

  leds-lit :
      (t : LedType) (now : ℕ) (s : Kitchen b)
      → (leds t (lit now s) ≡ map (b.update now) (leds t s))
        × (trans_run b t (lit now s) ≡ trans_run b t s)
  unfolding lit leds_update
  leds-lit color now s = (refl, refl)
  leds-lit white now s = (refl, refl)

  -- From the updated globals to the end of the pass, for a kind whose step comes first or last.
  pass_color :
      (now : ℕ) (s : Kitchen b)
      → Looping color s
      → Turned color s (pass_at now s) ⊎ Kept color now s (pass_at now s)
  unfolding pass_at leds_process led_process_loop lit
  pass_color now s l =
      let half = led_process_one b color (lit now s) in
      let k = white-Same half in
      let (e, r) = leds-lit color now s in
      elim (one-cases color (lit now s) (rw r l)) [
        | inl turned ↦ inl (ap (λ (x : TransitionRunning). x.direction) k.same_run ∙ turned ∙ rw r)
        | inr (stays, other) ↦ inr (record {
          updated = k.same_leds ∙ ap (leds color) stays ∙ e;
          run_kept = k.same_run ∙ ap (trans_run b color) stays ∙ r;
          elsewhere = shows-Same color half (pass_at now s) k ∙ ap (shows color) stays ∙ other;
        })
      ]

  pass_white :
      (now : ℕ) (s : Kitchen b)
      → Looping white s
      → Turned white s (pass_at now s) ⊎ Kept white now s (pass_at now s)
  unfolding pass_at leds_process led_process_loop lit
  pass_white now s l =
      let half = led_process_one b color (lit now s) in
      let k = color-Same (lit now s) in
      let (e, r) = leds-lit white now s in
      elim (one-cases white half (rw (k.same_run ∙ r) l)) [
        | inl turned ↦ inl (turned ∙ rw (k.same_run ∙ r))
        | inr (stays, other) ↦ inr (record {
          updated = ap (leds white) stays ∙ k.same_leds ∙ e;
          run_kept = ap (trans_run b white) stays ∙ k.same_run ∙ r;
          elsewhere = ap (shows white) stays ∙ other;
        })
      ]

  pass-cases :
      (t : LedType) (now : ℕ) (s : Kitchen b)
      → Looping t s
      → Turned t s (pass_at now s) ⊎ Kept t now s (pass_at now s)
  pass-cases color now s l = pass_color now s l
  pass-cases white now s l = pass_white now s l

  -- One of the passes turns the transition.
  abbrev pub TurnsWithin : LedType → List ℕ → Kitchen b → Type 0
  TurnsWithin t [] s = ⊥
  TurnsWithin t (now ∷ ns) s = Turned t s (pass_at now s) ⊎ TurnsWithin t ns (pass_at now s)

  -- Updates of one LED.
  abbrev pub updated_at : List ℕ → b.Led → b.Led
  updated_at [] l = l
  updated_at (now ∷ ns) l = updated_at ns (b.update now l)

  -- What is left when no pass turns the transition.
  pub record Waiting (t : LedType) (ns : List ℕ) (s s' : Kitchen b) : Type 0 where
    pub all_updated : leds t s' ≡ map (updated_at ns) (leds t s)
    pub same_transition : trans_run b t s' ≡ trans_run b t s
    pub not_there : (ns ≡ []) ⊎ (shows t s' ≡ false)

  map-map : {A : Type 0} (g h : A → A) (xs : List A) → map g (map h xs) ≡ map (λ x. g (h x)) xs
  map-map g h [] = refl
  map-map g h (x ∷ xs) = ap (◌∷◌ (g (h x))) (map-map g h xs)

  pub passes-cases :
      (t : LedType) (ns : List ℕ) (s : Kitchen b)
      → Looping t s
      → TurnsWithin t ns s ⊎ Waiting t ns s (passes_at ns s)
  unfolding passes_at
  passes-cases color [] s l =
      inr (record { all_updated = refl; same_transition = refl; not_there = inl refl })
  passes-cases white [] s l =
      inr (record { all_updated = refl; same_transition = refl; not_there = inl refl })
  passes-cases t (now ∷ ns) s l = elim (pass-cases t now s l) [
    | inl turned ↦ inl (inl turned)
    | inr k ↦ elim (passes-cases t ns (pass_at now s) (rw k.run_kept l)) [
      | inl turns ↦ inl (inr turns)
      | inr w ↦ inr (record {
        all_updated =
            w.all_updated
            ∙ ap (map (updated_at ns)) k.updated
            ∙ map-map (updated_at ns) (b.update now) (leds t s);
        same_transition = w.same_transition ∙ k.run_kept;
        not_there = inr (later ns w.not_there k.elsewhere);
      })
    ]
  ]
    where
      later :
          (ms : List ℕ)
          → (ms ≡ []) ⊎ (shows t (passes_at ms (pass_at now s)) ≡ false)
          → shows t (pass_at now s) ≡ false
          → shows t (passes_at ms (pass_at now s)) ≡ false
      later ms (inl none_left) e = rw none_left e
      later ms (inr not_there) e = not_there
