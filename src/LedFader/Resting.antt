-- ===== src/LedFader/Resting.antt =====
-- Fades of all LEDs over the faders, until they are at rest.
use smarthouse_arduino.Base.{
  ℕ, ◌+◌, ◌%◌, ◌≤◌, ◌<◌, ◌≡◌, refl, sym, ap, ◌∙◌, subst, false, List, [], ◌∷◌, ◌++◌, map, arith,
}
use smarthouse_arduino.Kitchen.Board.{Board, IsBoard}
use smarthouse_arduino.Kitchen.Leds.{leds_update}
use smarthouse_arduino.Kitchen.Outcomes.{Settled}
use smarthouse_arduino.Kitchen.Passes.{leds, updated_at, passes_at, pass_at}
use smarthouse_arduino.Kitchen.Polls.{process_still}
use smarthouse_arduino.Kitchen.State.{Kitchen}
use smarthouse_arduino.Kitchen.Types.{Rgbw, color, white, IsByteColor}
use smarthouse_arduino.LedFader.{Float, IsFloat, get_value, is_fading, destination}
use smarthouse_arduino.LedFader.Completion.{fade_done, is_fading-IsDone}
use smarthouse_arduino.LedFader.Fade.{Times, last_of}
use smarthouse_arduino.LedFader.Implements.{Rom, IsRom, Led, fader_board, laws}
use smarthouse_arduino.LedFader.Turning.{reading, AllLate, updated_at-updates}
use smarthouse_arduino.NewButton.Hold.{clock_mod}

module _ {b : Board} (doc : IsBoard b) where
  -- Every LED has only been updated, and no transition runs.
  record Updated (ns : List ℕ) (s s' : Kitchen b) : Type 0 where
    pub updated_r : s'.led_r ≡ updated_at b ns s.led_r
    pub updated_g : s'.led_g ≡ updated_at b ns s.led_g
    pub updated_b : s'.led_b ≡ updated_at b ns s.led_b
    pub updated_w : s'.led_w ≡ updated_at b ns s.led_w
    pub no_color_run : s'.trans_color.running ≡ false
    pub no_white_run : s'.trans_white.running ≡ false

  passes-Updated :
      (ns : List ℕ) (s : Kitchen b)
      → s.trans_color.running ≡ false
      → s.trans_white.running ≡ false
      → Updated ns s (passes_at b ns s)
  unfolding passes_at pass_at leds_update
  passes-Updated [] s h h' = record {
    updated_r = refl;
    updated_g = refl;
    updated_b = refl;
    updated_w = refl;
    no_color_run = h;
    no_white_run = h';
  }
  passes-Updated (n ∷ ns) s h h' =
      let s1 : Kitchen b = record s { clock = n } in
      let rest = passes-Updated ns (leds_update b s1) h h' in
      rw (process_still doc s1 h h') record {
        updated_r = rest.updated_r;
        updated_g = rest.updated_g;
        updated_b = rest.updated_b;
        updated_w = rest.updated_w;
        no_color_run = rest.no_color_run;
        no_white_run = rest.no_white_run;
      }

module _ {f : Float} (doc : IsFloat f) (m : Rom) (rom : IsRom m) where
  -- The fades that were begun are over in time.
  abbrev pub AllOver : ℕ → ℕ → List (Led f) → Type 0
  AllOver end last [] = Unit {0}
  AllOver end last (l ∷ ls) = (0 < l.0.duration → end + l.0.interval ≤ last) × AllOver end last ls

  pub AllLate-AllOver :
      (end last : ℕ) (ls : List (Led f)) → AllLate doc m end last ls → AllOver end last ls
  AllLate-AllOver end last [] late = tt
  AllLate-AllOver end last (l ∷ ls) late = (λ _. late.0, AllLate-AllOver end last ls late.1)

  -- A fade of one LED, updated until it is over.
  pub led_settles :
      (start v time : ℕ) (us : List ℕ) (l l1 l' : Led f)
      → v < 256
      → Times start (start + clock_mod) us
      → l1 ≡ (fader_board f m).fade (reading start) v time l
      → (0 < l1.0.duration → start + time + l1.0.interval ≤ last_of start us)
      → l' ≡ updated_at (fader_board f m) (map reading us) l1
      → (destination f l'.0 ≡ v) × (is_fading f l'.0 ≡ false)
  unfolding laws get_value
  led_settles start v time us l l1 l' byte times begins late e =
      let begun = (fader_board f m).fade (reading start) v time l in
      let late' : 0 < begun.0.duration → start + time + begun.0.interval ≤ last_of start us =
        subst (λ x. 0 < x.0.duration → start + time + x.0.interval ≤ last_of start us) begins
          late in
      let last = updated_at (fader_board f m) (map reading us) begun in
      let d =
        fade_done doc start v (time % clock_mod) us l.0 l.1 byte (omega arith) times
          (λ going. omega (arith, late' going)) in
      let same = updated_at-updates doc m us begun in
      let over : is_fading f last.0 ≡ false = ap (is_fading f) same ∙ is_fading-IsDone doc v _ d in
      let rests = (laws doc m rom).rests last over in
      rw (e, begins) (sym rests ∙ ap (get_value f) same ∙ d.arrived, over)

  -- Fades of all LEDs to a colour, begun at the true time `start` from the globals `s0`.
  pub fades_settle :
      (c : Rgbw) (time start : ℕ) (us : List ℕ) (s0 s : Kitchen (fader_board f m))
      → IsByteColor c
      → Times start (start + clock_mod) us
      → s.led_r ≡ (fader_board f m).fade (reading start) c.r time s0.led_r
      → s.led_g ≡ (fader_board f m).fade (reading start) c.g time s0.led_g
      → s.led_b ≡ (fader_board f m).fade (reading start) c.b time s0.led_b
      → s.led_w ≡ (fader_board f m).fade (reading start) c.w time s0.led_w
      → s.trans_color.running ≡ false
      → s.trans_white.running ≡ false
      → AllOver
          (start + time)
          (last_of start us)
          (leds (fader_board f m) color s ++ leds (fader_board f m) white s)
      → Settled (laws doc m rom) c (passes_at (fader_board f m) (map reading us) s)
  unfolding laws
  fades_settle c time start us s0 s byte times r g b w h h'
        (late_r, (late_g, (late_b, (late_w, _)))) =
      let u = passes-Updated (laws doc m rom) (map reading us) s h h' in
      let settled = led_settles start in
      let (r1, r2) = settled c.r time us s0.led_r s.led_r _ byte.0 times r late_r u.updated_r in
      let (g1, g2) = settled c.g time us s0.led_g s.led_g _ byte.1 times g late_g u.updated_g in
      let (b1, b2) = settled c.b time us s0.led_b s.led_b _ byte.2 times b late_b u.updated_b in
      let (w1, w2) = settled c.w time us s0.led_w s.led_w _ byte.3 times w late_w u.updated_w in
      record {
        shown = record {
          colors = (r1, g1, b1);
          whites = w1;
          no_color_run = u.no_color_run;
          no_white_run = u.no_white_run;
        };
        at_rest = record { rest_r = r2; rest_g = g2; rest_b = b2; rest_w = w2 };
      }
