-- ===== src/Kitchen/Sketch.antt =====
-- sketches/Kitchen/Kitchen.ino: set-up, the main loop and the button's callbacks.
use smarthouse_arduino.Base.{ℕ, Bool, false, not, List, [], ◌∷◌, if◌then◌else◌}
use smarthouse_arduino.Kitchen.Board.{Board}
use smarthouse_arduino.Kitchen.Leds.{
  leds_reset, leds_setup, leds_process, led_values, leds_start_transition, switch_leds_off,
  switch_color_leds_off, switch_white_leds_off,
}
use smarthouse_arduino.Kitchen.State.{Kitchen, ButtonMode, both, only_color, only_white}
use smarthouse_arduino.Kitchen.Store.{
  storage_reset, storage_setup, restore_color_leds, restore_white_leds, is_stored_equal,
}
use smarthouse_arduino.Kitchen.Types.{color, white, button}
use smarthouse_arduino.NewButton.{NewButton, new, register, process, long_press, short_release}

-- The two callbacks that the sketch registers.
pub data Callback : Type 0 where
  on_btn_short_release on_btn_long_press : Callback

abbrev pub pin_in_button : ℕ
pin_in_button = 7

-- `button` with the default times of the constructor, after the registrations of `setup`.
unfoldable pub kitchen_button : NewButton Callback
kitchen_button =
    register long_press on_btn_long_press
      (register short_release on_btn_short_release (new pin_in_button 40 2000))

module _ (b : Board) where
  unfoldable pub reset : Kitchen b → Kitchen b
  unfolding leds_reset storage_reset
  reset s = record (storage_reset b (leds_reset b s)) { button_mode = both }

  unfoldable pub setup : Kitchen b → Kitchen b
  unfolding storage_setup leds_setup
  setup s = leds_setup b (storage_setup b s)

  unfoldable pub stop_transitions : Kitchen b → Kitchen b
  unfolding leds_start_transition
  stop_transitions s = leds_start_transition b color false (leds_start_transition b white false s)

  unfoldable pub switch_leds_by_button : Bool → Kitchen b → Kitchen b
  unfolding stop_transitions restore_color_leds restore_white_leds switch_leds_off
  switch_leds_by_button on s =
      let stopped = stop_transitions s in
      if on
      then restore_white_leds b button (restore_color_leds b button stopped)
      else switch_leds_off b stopped

  unfoldable pub short_release_handler : Kitchen b → Kitchen b
  unfolding switch_leds_by_button is_stored_equal led_values
  short_release_handler s =
      let status = is_stored_equal b button (led_values b s) s in
      switch_leds_by_button (not status) s

  -- The `switch` of `on_btn_long_press`.
  unfoldable pub change_mode : ButtonMode → Kitchen b → Kitchen b
  unfolding restore_color_leds restore_white_leds switch_white_leds_off switch_color_leds_off
  change_mode both s = record (restore_white_leds b button (restore_color_leds b button s)) {
    button_mode = only_color;
  }
  change_mode only_color s = record (restore_color_leds b button (switch_white_leds_off b s)) {
    button_mode = only_white;
  }
  change_mode only_white s = record (restore_white_leds b button (switch_color_leds_off b s)) {
    button_mode = both;
  }

  unfoldable pub long_press_handler : Kitchen b → Kitchen b
  unfolding stop_transitions change_mode
  long_press_handler s = change_mode s.button_mode (stop_transitions s)

  unfoldable pub call : Callback → Kitchen b → Kitchen b
  unfolding short_release_handler long_press_handler
  call on_btn_short_release s = short_release_handler s
  call on_btn_long_press s = long_press_handler s

  unfoldable pub call_all : List Callback → Kitchen b → Kitchen b
  call_all [] s = s
  call_all (f ∷ fs) s = call_all fs (call f s)

  -- One pass of `loop`: the pin's level and the readings of millis() are its input.
  unfoldable pub loop :
      Bool → ℕ → ℕ → NewButton Callback × Kitchen b → NewButton Callback × Kitchen b
  loop status now later (btn, s) =
      let (btn', calls) = process status now later btn in
      (btn', leds_process b (call_all calls (record s { clock = later })))
