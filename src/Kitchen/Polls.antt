-- ===== src/Kitchen/Polls.antt =====
-- What one pass of the main loop does to the Kitchen globals, by the calls of its poll.
use smarthouse_arduino.Base.{ℕ, ◌≡◌, refl, ap, ◌∙◌, false, not, [], ◌∷◌, arith}
use smarthouse_arduino.Kitchen.Board.{Board, IsBoard}
use smarthouse_arduino.Kitchen.Leds.{
  leds_process, led_process_one, led_process_loop, leds_update, leds_fade_from, led_values,
}
use smarthouse_arduino.Kitchen.Outcomes.{
  Kept, Cycled, Switched, Kept-trans, Cycled-Kept, Switched-Kept,
}
use smarthouse_arduino.Kitchen.Presses.{Shows, AllAtRest, long_press-Shows, switch-Shows}
use smarthouse_arduino.Kitchen.Sketch.{
  Callback, on_btn_short_release, on_btn_long_press, call, call_all, loop, long_press_handler,
  short_release_handler, switch_leds_by_button,
}
use smarthouse_arduino.Kitchen.State.{Kitchen, trans_run}
use smarthouse_arduino.Kitchen.Types.{Rgbw, LedType, color, white, button, IsByteColor}
use smarthouse_arduino.Kitchen.Store.{is_stored_equal}
use smarthouse_arduino.NewButton.{NewButton, process}
use smarthouse_arduino.NewButton.Press.{Poll}

module _ {b : Board} (doc : IsBoard b) where
  one_still :
      (t : LedType) (s : Kitchen b) → (trans_run b t s).running ≡ false → led_process_one b t s ≡ s
  unfolding led_process_one
  one_still t s h = ground (arith, h)

  pub process_still :
      (s : Kitchen b)
      → s.trans_color.running ≡ false
      → s.trans_white.running ≡ false
      → leds_process b s ≡ leds_update b s
  unfolding leds_process led_process_loop leds_update
  process_still s h h' =
      let lit = leds_update b s in
      let e : led_process_one b color lit ≡ lit = one_still color lit h in
      ap (led_process_one b white) e ∙ one_still white lit h'

  update-Shows : (c : Rgbw) (s : Kitchen b) → Shows doc c s → Shows doc c (leds_update b s)
  unfolding leds_update
  update-Shows c s h = record {
    colors = (
      doc.destination-update s.clock s.led_r ∙ h.colors.0,
      doc.destination-update s.clock s.led_g ∙ h.colors.1,
      doc.destination-update s.clock s.led_b ∙ h.colors.2,
    );
    whites = doc.destination-update s.clock s.led_w ∙ h.whites;
    no_color_run = h.no_color_run;
    no_white_run = h.no_white_run;
  }

  process-Shows : (c : Rgbw) (s : Kitchen b) → Shows doc c s → Shows doc c (leds_process b s)
  process-Shows c s h = rw (process_still s h.no_color_run h.no_white_run) (update-Shows c s h)

  clock-Shows :
      (c : Rgbw) (now : ℕ) (s : Kitchen b) → Shows doc c s → Shows doc c (record s { clock = now })
  clock-Shows c now s h = record {
    colors = h.colors;
    whites = h.whites;
    no_color_run = h.no_color_run;
    no_white_run = h.no_white_run;
  }

  rest-update : (s : Kitchen b) → AllAtRest doc s → AllAtRest doc (leds_update b s)
  unfolding leds_update
  rest-update s r = record {
    rest_r = doc.is_fading-update s.clock s.led_r r.rest_r;
    rest_g = doc.is_fading-update s.clock s.led_g r.rest_g;
    rest_b = doc.is_fading-update s.clock s.led_b r.rest_b;
    rest_w = doc.is_fading-update s.clock s.led_w r.rest_w;
  }

  clock-Kept : (now : ℕ) (s : Kitchen b) → Kept doc s (record s { clock = now })
  clock-Kept now s = record {
    shows = λ c h. clock-Shows c now s h;
    settled = λ c h. record {
      shown = clock-Shows c now s h.shown;
      at_rest = record {
        rest_r = h.at_rest.rest_r;
        rest_g = h.at_rest.rest_g;
        rest_b = h.at_rest.rest_b;
        rest_w = h.at_rest.rest_w;
      };
    };
    same_mode = refl;
    same_storage = refl;
    same_sent = refl;
  }

  one_kept :
      (t : LedType) (s : Kitchen b)
      → ((led_process_one b t s).button_mode ≡ s.button_mode)
        × ((led_process_one b t s).storage ≡ s.storage)
        × ((led_process_one b t s).sent ≡ s.sent)
  unfolding led_process_one leds_fade_from
  one_kept color s = ground arith
  one_kept white s = ground arith

  -- The mode, the stored colours and the messages do not depend on the LEDs.
  process-Kept : (s : Kitchen b) → Kept doc s (leds_process b s)
  unfolding leds_process led_process_loop leds_update
  process-Kept s =
      let lit = leds_update b s in
      let (m, st, sent) = one_kept color lit in
      let (m', st', sent') = one_kept white (led_process_one b color lit) in
      record {
        shows = λ c h. process-Shows c s h;
        settled = λ c h. record {
          shown = process-Shows c s h.shown;
          at_rest =
              rw (process_still s h.shown.no_color_run h.shown.no_white_run)
                (rest-update s h.at_rest);
        };
        same_mode = m' ∙ m;
        same_storage = st' ∙ st;
        same_sent = sent' ∙ sent;
      }

  -- A pass without calls, one with the call of a long press, one with that of a short release.
  pub pass_none :
      (p : Poll) (btn : NewButton Callback) (s : Kitchen b)
      → (process p.status p.now p.later btn).1 ≡ []
      → Kept doc s (loop b p.status p.now p.later (btn, s)).1
  unfolding loop call_all
  pass_none p btn s e =
      let s1 : Kitchen b = record s { clock = p.later } in
      rw e (Kept-trans doc s s1 (leds_process b s1) (clock-Kept p.later s) (process-Kept s1))

  pub pass_long :
      (p : Poll) (btn : NewButton Callback) (s : Kitchen b)
      → (process p.status p.now p.later btn).1 ≡ on_btn_long_press ∷ []
      → IsByteColor s.storage.button_colors
      → Cycled doc s (loop b p.status p.now p.later (btn, s)).1
  unfolding loop call_all call
  pass_long p btn s e byte =
      let s1 : Kitchen b = record s { clock = p.later } in
      let (shows, mode, sent, st) = long_press-Shows doc s1 byte in
      let s2 = long_press_handler b s1 in
      let cycled : Cycled doc s s2 = record {
        cycled_shows = shows;
        cycled_mode = mode;
        cycled_storage = st;
        cycled_sent = sent;
      } in
      rw e (Cycled-Kept doc s s2 (leds_process b s2) cycled (process-Kept s2))

  pub pass_short :
      (p : Poll) (btn : NewButton Callback) (s : Kitchen b)
      → (process p.status p.now p.later btn).1 ≡ on_btn_short_release ∷ []
      → IsByteColor s.storage.button_colors
      → Switched doc
          (not (is_stored_equal b button (led_values b s) s))
          s
          (loop b p.status p.now p.later (btn, s)).1
  unfolding loop call_all call short_release_handler is_stored_equal led_values
  pass_short p btn s e byte =
      let s1 : Kitchen b = record s { clock = p.later } in
      let on = not (is_stored_equal b button (led_values b s1) s1) in
      let s2 = switch_leds_by_button b on s1 in
      let (shows, st, mode, sent) = switch-Shows doc on s1 byte in
      let switched : Switched doc on s s2 = record {
        switched_shows = shows;
        switched_mode = mode;
        switched_storage = st;
        switched_sent = sent;
      } in
      rw e (Switched-Kept doc on s s2 (leds_process b s2) switched (process-Kept s2))
