-- ===== src/LedFader/Examples.antt =====
-- libraries/LEDFader/examples: singleLED.ino and multipleLEDs.ino, with the readings of millis() and the
-- numbers of random() as inputs of a pass.
use smarthouse_arduino.Base.{
  ℕ, ◌≤◌, ◌<◌, ◌≡◌, ◌≢◌, inl, inr, refl, sym, ap, ◌∙◌, Bool-cases, ℕ_discrete, length, Bool, true,
  false, not, List, [], ◌∷◌, ◌==◌, if◌then◌else◌, arith,
}
use smarthouse_arduino.LedFader.{
  Float, IsFloat, IsReady, destination, Fader, new_fader, fade, update, is_fading, get_value,
  stop_fade, set_value,
}
use smarthouse_arduino.LedFader.Implements.{
  update-IsReady, fade-IsReady, destination-fade, destination-update, rests,
}

abbrev pub led_pin : ℕ
led_pin = 3

abbrev pub fade_time : ℕ
fade_time = 2000

-- The readings of millis() of a pass: in `fade`, and the two in `update`.
pub record Clock : Type 0 where
  pub start : ℕ
  pub now : ℕ
  pub later : ℕ

-- What a pass reads for one LED: the clock, and what random() would give for the duration and the level.
pub record Draw : Type 0 where
  pub clock : Clock
  pub time : ℕ
  pub level : ℕ

-- `random(from, to)` is at least `from` and below `to`.
pub record IsDraw (d : Draw) : Type 0 where
  pub time_range : (1000 ≤ d.time) × (d.time < 3000)
  pub level_range : (100 ≤ d.level) × (d.level < 255)

module _ (f : Float) where
  -- `up` says whether `direction` is DIR_UP.
  pub record SingleLed : Type 0 where
    pub led : Fader f
    pub up : Bool

  unfoldable pub single_setup : ℕ → SingleLed
  single_setup start = record { led = fade f start 255 fade_time (new_fader f led_pin); up = true }

  unfoldable pub single_loop : Clock → SingleLed → SingleLed
  single_loop c s =
      let led = (update f c.now c.later s.led).0 in
      if not (is_fading f led)
      then (if s.up
          then record { led = fade f c.start 0 fade_time led; up = false }
          else record { led = fade f c.start 255 fade_time led; up = true })
      else record s { led = led }

  unfoldable pub single_loops : List Clock → SingleLed → SingleLed
  single_loops [] s = s
  single_loops (c ∷ cs) s = single_loops cs (single_loop c s)

  -- The LEDs of multipleLEDs.ino, and its loop over them; the inputs are those of the LEDs in order.
  abbrev pub multiple_leds : List (Fader f)
  multiple_leds =
      new_fader f 3
      ∷ (new_fader f 5
          ∷ (new_fader f 6 ∷ (new_fader f 9 ∷ (new_fader f 10 ∷ (new_fader f 11 ∷ [])))))

  unfoldable pub multiple_step : Draw → Fader f → Fader f
  multiple_step d l =
      let c = d.clock in
      let led = (update f c.now c.later l).0 in
      if not (is_fading f led)
      then (if get_value f led == 0
          then fade f c.start d.level d.time led
          else fade f c.start 0 d.time led)
      else led

  unfoldable pub multiple_loop : List Draw → List (Fader f) → List (Fader f)
  multiple_loop [] ls = ls
  multiple_loop (d ∷ ds) [] = []
  multiple_loop (d ∷ ds) (l ∷ ls) = multiple_step d l ∷ multiple_loop ds ls

  update-pin : (now later : ℕ) (l : Fader f) → (update f now later l).0.pin ≡ l.pin
  unfolding update set_value stop_fade
  update-pin now later l = ground arith

  fade-is_fading :
      (now value time : ℕ) (l : Fader f)
      → 0 < l.pin
      → value ≢ l.color
      → 20 < time
      → (is_fading f (fade f now value time l) ≡ true) × (0 < (fade f now value time l).pin)
  unfolding fade stop_fade is_fading
  fade-is_fading now value time l h n t = ground (arith, h, n, t)

  -- An LED of multipleLEDs.ino that has a pin fades after each pass over it, whatever random() gives in
  -- its documented range.
  pub multiple_step_fades :
      (d : Draw) (l : Fader f)
      → IsDraw d
      → 0 < l.pin
      → (is_fading f (multiple_step d l) ≡ true) × (0 < (multiple_step d l).pin)
  unfolding multiple_step get_value
  multiple_step_fades d l k h =
      let c = d.clock in
      let led = (update f c.now c.later l).0 in
      let pinned : 0 < led.pin = omega (arith, h, update-pin c.now c.later l) in
      let long : 20 < d.time = omega (arith, k.time_range) in
      elim (Bool-cases (is_fading f led)) [
        | inl going ↦ rw going (going, pinned)
        | inr over ↦ elim (ℕ_discrete led.color 0) [
          | yes dark ↦
              rw (over, dark)
                (fade-is_fading c.start d.level d.time led pinned
                  (λ same. omega (arith, k.level_range, same, dark)) long)
          | no lit ↦ ground (
            arith,
            over,
            lit,
            fade-is_fading c.start 0 d.time led pinned (λ same. lit (sym same)) long,
          )
        ]
      ]

  abbrev pub AllDraws : List Draw → Type 0
  AllDraws [] = Unit {0}
  AllDraws (d ∷ ds) = IsDraw d × AllDraws ds

  abbrev pub AllPinned : List (Fader f) → Type 0
  AllPinned [] = Unit {0}
  AllPinned (l ∷ ls) = (0 < l.pin) × AllPinned ls

  abbrev pub AllFading : List (Fader f) → Type 0
  AllFading [] = Unit {0}
  AllFading (l ∷ ls) = (is_fading f l ≡ true) × AllFading ls

  -- After a pass of multipleLEDs.ino all of its LEDs fade, from the first pass on.
  pub multiple_loop_fades :
      (ds : List Draw) (ls : List (Fader f))
      → AllDraws ds
      → AllPinned ls
      → length ls ≤ length ds
      → AllFading (multiple_loop ds ls) × AllPinned (multiple_loop ds ls)
  unfolding multiple_loop
  multiple_loop_fades [] [] k h l = (tt, tt)
  multiple_loop_fades [] (x ∷ ls) k h l = absurd (omega (arith, l))
  multiple_loop_fades (d ∷ ds) [] k h l = (tt, tt)
  multiple_loop_fades (d ∷ ds) (x ∷ ls) (k, ks) (h, hs) l =
      let (now, pinned) = multiple_step_fades d x k h in
      let (rest, still) = multiple_loop_fades ds ls ks hs (omega (arith, l)) in
      ((now, rest), (pinned, still))

  pub multiple_leds-AllPinned : AllPinned multiple_leds
  unfolding new_fader
  multiple_leds-AllPinned =
      (omega arith, (omega arith, (omega arith, (omega arith, (omega arith, (omega arith, tt))))))

module _ {f : Float} (doc : IsFloat f) where
  abbrev pub extreme : Bool → ℕ
  extreme up = if up then 255 else 0

  -- An LED on its way, up to 255 or down to 0.
  pub record IsSwinging (s : SingleLed f) : Type 0 where
    pub ready : IsReady f s.led
    pub swing : is_fading f s.led ≡ true
    pub aim : destination f s.led ≡ extreme s.up

  turned :
      (now : ℕ) (up : Bool) (l : Fader f)
      → IsReady f l
      → l.color ≡ extreme (not up)
      → IsSwinging (record { led = fade f now (extreme up) fade_time l; up = up })
  turned now up l r h = record {
    ready = fade-IsReady f now (extreme up) fade_time l (omega arith) r;
    swing =
        (fade-is_fading f now (extreme up) fade_time l r.pinned (ground (arith, h))
          (omega arith)).0;
    aim = destination-fade doc now (extreme up) fade_time l r.pinned (ground arith);
  }

  -- A fade of singleLED.ino that is over has come to the end of the swing, so the loop turns it.
  single_loop-IsSwinging :
      (c : Clock) (s : SingleLed f) → IsSwinging s → IsSwinging (single_loop f c s)
  unfolding single_loop get_value
  single_loop-IsSwinging c s k =
      let led = (update f c.now c.later s.led).0 in
      let r = update-IsReady f c.now c.later s.led k.ready in
      let aim = destination-update doc c.now c.later s.led k.ready ∙ k.aim in
      elim (Bool-cases (is_fading f led)) [
        | inl going ↦ rw going (record { ready = r; swing = going; aim = aim })
        | inr over ↦
            let arrived = rests doc led r over ∙ aim in
            elim (Bool-cases s.up) [
              | inl up ↦ rw (over, up) (turned c.start false led r (arrived ∙ ap extreme up))
              | inr down ↦ rw (over, down) (turned c.start true led r (arrived ∙ ap extreme down))
            ]
      ]

  loops-IsSwinging :
      (cs : List Clock) (s : SingleLed f) → IsSwinging s → IsSwinging (single_loops f cs s)
  unfolding single_loops
  loops-IsSwinging [] s k = k
  loops-IsSwinging (c ∷ cs) s k =
      loops-IsSwinging cs (single_loop f c s) (single_loop-IsSwinging c s k)

  -- The LED of singleLED.ino never stands still: after set-up and any passes, at whatever times, it fades,
  -- up to 255 or down to 0 as `direction` says.
  pub single_led_swings :
      (start : ℕ) (cs : List Clock)
      → let s = single_loops f cs (single_setup f start) in
        (is_fading f s.led ≡ true) × (destination f s.led ≡ extreme s.up)
  unfolding single_setup new_fader
  single_led_swings start cs =
      let new : IsReady f (new_fader f led_pin) = record {
        pinned = omega arith;
        bounded = omega arith;
        color_byte = omega arith;
        target_byte = omega arith;
      } in
      let k =
        loops-IsSwinging cs (single_setup f start)
          (turned start true (new_fader f led_pin) new refl) in
      (k.swing, k.aim)
