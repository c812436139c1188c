-- ===== src/Kitchen/Leds.antt =====
-- sketches/Kitchen/LEDs.cpp: fades and transitions. A function maps the globals to the new globals.
use smarthouse_arduino.Base.{ℕ, Bool, true, false, not, ◌&&◌, ◌==◌, if◌then◌else◌}
use smarthouse_arduino.Kitchen.Board.{Board}
use smarthouse_arduino.Kitchen.State.{
  TransitionRunning, Kitchen, trans_run, set_trans_run, network_send_color_status,
  network_send_white_status,
}
use smarthouse_arduino.Kitchen.Types.{Rgbw, LedType, color, white, Transition, no_transition}

abbrev pub fade_time_ms : ℕ
fade_time_ms = 3000

abbrev pub not_running : TransitionRunning
not_running = record { running = false; transition = no_transition; direction = false }

module _ (b : Board) where
  unfoldable pub leds_reset : Kitchen b → Kitchen b
  leds_reset s = record s { trans_color = not_running; trans_white = not_running }

  -- The overload with a start colour.
  unfoldable pub leds_color_fade_from : Rgbw → Rgbw → ℕ → Kitchen b → Kitchen b
  leds_color_fade_from start stop time s = record s {
    led_r = b.fade s.clock stop.r time (b.set_value start.r s.led_r);
    led_g = b.fade s.clock stop.g time (b.set_value start.g s.led_g);
    led_b = b.fade s.clock stop.b time (b.set_value start.b s.led_b);
  }

  unfoldable pub leds_white_fade_from : Rgbw → Rgbw → ℕ → Kitchen b → Kitchen b
  leds_white_fade_from start stop time s = record s {
    led_w = b.fade s.clock stop.w time (b.set_value start.w s.led_w);
  }

  unfoldable pub leds_color_fade : ℕ → ℕ → ℕ → ℕ → Kitchen b → Kitchen b
  leds_color_fade r g b' time s = record s {
    led_r = b.fade s.clock r time s.led_r;
    led_g = b.fade s.clock g time s.led_g;
    led_b = b.fade s.clock b' time s.led_b;
  }

  unfoldable pub leds_white_fade : ℕ → ℕ → Kitchen b → Kitchen b
  leds_white_fade w time s = record s { led_w = b.fade s.clock w time s.led_w }

  unfoldable pub switch_color_leds_off : Kitchen b → Kitchen b
  unfolding leds_color_fade network_send_color_status
  switch_color_leds_off s = network_send_color_status b false (leds_color_fade 0 0 0 fade_time_ms s)

  unfoldable pub switch_white_leds_off : Kitchen b → Kitchen b
  unfolding leds_white_fade network_send_white_status
  switch_white_leds_off s = network_send_white_status b false (leds_white_fade 0 fade_time_ms s)

  unfoldable pub switch_leds_off : Kitchen b → Kitchen b
  unfolding switch_color_leds_off switch_white_leds_off
  switch_leds_off s = switch_white_leds_off (switch_color_leds_off s)

  unfoldable pub leds_setup : Kitchen b → Kitchen b
  unfolding leds_reset switch_leds_off
  leds_setup s = switch_leds_off (leds_reset s)

  unfoldable pub led_values : Kitchen b → Rgbw
  led_values s = record {
    r = b.get_value s.led_r;
    g = b.get_value s.led_g;
    b = b.get_value s.led_b;
    w = b.get_value s.led_w;
  }

  unfoldable pub leds_is_transition : LedType → Kitchen b → Bool
  leds_is_transition t s = (trans_run b t s).running

  unfoldable pub leds_set_transition : LedType → Transition → Kitchen b → Kitchen b
  leds_set_transition t x s = set_trans_run b t (record (trans_run b t s) { transition = x }) s

  -- The fade of a transition of one kind of LED.
  unfoldable pub leds_fade_from : LedType → Rgbw → Rgbw → ℕ → Kitchen b → Kitchen b
  unfolding leds_color_fade_from leds_white_fade_from
  leds_fade_from color start stop time s = leds_color_fade_from start stop time s
  leds_fade_from white start stop time s = leds_white_fade_from start stop time s

  unfoldable pub leds_start_transition : LedType → Bool → Kitchen b → Kitchen b
  unfolding leds_fade_from
  leds_start_transition t false s =
      set_trans_run b t (record (trans_run b t s) { running = false }) s
  leds_start_transition t true s =
      let run = trans_run b t s in
      let x = run.transition in
      set_trans_run b t (record run { running = true; direction = true })
        (leds_fade_from t x.start x.stop x.time s)

  unfoldable pub is_leds_has_colors : Rgbw → Kitchen b → Bool
  is_leds_has_colors c s =
      b.get_value s.led_r == c.r && b.get_value s.led_g == c.g && b.get_value s.led_b == c.b

  unfoldable pub is_leds_has_white : Rgbw → Kitchen b → Bool
  is_leds_has_white c s = b.get_value s.led_w == c.w

  -- The test of `led_process_loop` for one kind of LED.
  unfoldable pub is_leds_at : LedType → Rgbw → Kitchen b → Bool
  unfolding is_leds_has_colors is_leds_has_white
  is_leds_at color c s = is_leds_has_colors c s
  is_leds_at white c s = is_leds_has_white c s

  -- The half of `led_process_loop` for one kind of LED: at an end of a looping transition the fade turns.
  unfoldable pub led_process_one : LedType → Kitchen b → Kitchen b
  unfolding is_leds_at leds_fade_from
  led_process_one t s =
      let run = trans_run b t s in
      let x = run.transition in
      if run.running && x.is_loop
      then (if run.direction && is_leds_at t x.stop s
          then set_trans_run b t (record run { direction = false })
              (leds_fade_from t x.stop x.start x.time s)
          else if not run.direction && is_leds_at t x.start s
          then set_trans_run b t (record run { direction = true })
              (leds_fade_from t x.start x.stop x.time s)
          else s)
      else s

  unfoldable pub led_process_loop : Kitchen b → Kitchen b
  led_process_loop s = led_process_one white (led_process_one color s)

  unfoldable pub leds_update : Kitchen b → Kitchen b
  leds_update s = record s {
    led_r = b.update s.clock s.led_r;
    led_g = b.update s.clock s.led_g;
    led_b = b.update s.clock s.led_b;
    led_w = b.update s.clock s.led_w;
  }

  unfoldable pub leds_process : Kitchen b → Kitchen b
  leds_process s = led_process_loop (leds_update s)
