-- ===== src/LightSwitch/Sketch.antt =====
-- sketches/LightSwitchAC/LightSwitchAC.ino: set-up, the button's callbacks, messages, the main loop.
use smarthouse_arduino.Base.{
  ℕ, ◌^◌, Bool, not, true, false, List, [], ◌∷◌, ltb, leb, ◌==◌, ◌||◌, if◌then◌else◌,
}
use smarthouse_arduino.LightSwitch.Node.{
  fade_delay_slow_ms, fade_delay_fast_ms, dimmer_high, dimmer_max, dimmer_low, Eeprom, LampCallback,
  on_btn_long_press, on_btn_short_release, on_btn_long_release, Node, reset,
  change_button_direction, on_zero_cross_detect, on_timer_dim_check, eeprom_restore, dimmer_switch,
  dimmer_process, light_dimmer_convert, dimmer_level,
}
use smarthouse_arduino.LightSwitch.Relay.{new_relay, set_status, relay_process}
use smarthouse_arduino.NewButton.{
  new, default_short_press_time, default_long_press_time, register, process, long_press,
  short_release, long_release,
}

abbrev pub pin_out_relay1 : ℕ
pin_out_relay1 = 4

abbrev pub pin_in_button : ℕ
pin_in_button = 5

abbrev pub pin_out_relay2 : ℕ
pin_out_relay2 = 6

abbrev pub pin_in_relay1_button : ℕ
pin_in_relay1_button = 7

abbrev pub pin_in_relay2_button : ℕ
pin_in_relay2_button = 8

abbrev pub ms_lamp_id : ℕ
ms_lamp_id = 0

abbrev pub ms_relay1_id : ℕ
ms_relay1_id = 1

abbrev pub ms_relay2_id : ℕ
ms_relay2_id = 2

-- Message types of MySensors.
abbrev pub v_light : ℕ
v_light = 2

abbrev pub v_light_level : ℕ
v_light_level = 23

-- What the sketch reads of a message: `int` is the 16-bit pattern of `getInt()`.
pub record Incoming : Type 0 where
  pub sensor : ℕ
  pub type : ℕ
  pub bool : Bool
  pub int : ℕ

-- `constrain(x, DIMMER_LOW, DIMMER_MAX)` of an `int`.
abbrev pub constrained : ℕ → ℕ
constrained x = if leb (2 ^ 15) x then dimmer_low else if ltb dimmer_max x then dimmer_max else x

-- The calls of LOG_DEBUG that show the state; the last says whether the direction is up.
pub data Logged : Type 0 where
  logged_message logged_actual logged_target logged_max logged_delay : ℕ → Logged
  logged_direction : Bool → Logged

-- The level of a pin and the readings of millis() of a poll of a button.
pub record Poll : Type 0 where
  pub level : Bool
  pub now : ℕ
  pub later : ℕ

-- What a pass of the main loop reads.
pub record Inputs : Type 0 where
  pub now : ℕ
  pub lamp : Poll
  pub relay1_poll : Poll
  pub relay2_poll : Poll

module _ (e : Eeprom) where
  -- The initial values of the globals, with the defaults of `NewButton`.
  unfoldable pub power_on : e.Rom → Node e
  unfolding new new_relay
  power_on rom = record {
    button_direction = true;
    dimmer = record {
      actual = dimmer_max;
      limit = dimmer_max;
      target = dimmer_max;
      delay = fade_delay_slow_ms;
    };
    step_counter = 0;
    zero_cross = false;
    dimmer_last_now = 0;
    button = new pin_in_button default_short_press_time default_long_press_time;
    relay1 =
        new_relay (new pin_in_relay1_button default_short_press_time default_long_press_time)
          pin_out_relay1;
    relay2 =
        new_relay (new pin_in_relay2_button default_short_press_time default_long_press_time)
          pin_out_relay2;
    output_ac = false;
    rom = rom;
    sent = [];
  }

  unfoldable pub long_press_handler : Node e → Node e
  long_press_handler s =
      let up = change_button_direction e dimmer_low dimmer_max s in
      record s {
        button_direction = up;
        dimmer = record s.dimmer {
          target = if up then dimmer_max else dimmer_low;
          delay = fade_delay_slow_ms;
        };
      }

  unfoldable pub short_release_handler : Node e → Node e
  short_release_handler s =
      let up = change_button_direction e s.dimmer.limit dimmer_high s in
      dimmer_switch e up fade_delay_fast_ms (record s { button_direction = up })

  unfoldable pub long_release_handler : Node e → Node e
  long_release_handler s = dimmer_level e s.dimmer.actual s

  unfoldable pub call : LampCallback → Node e → Node e
  unfolding long_press_handler short_release_handler long_release_handler
  call on_btn_long_press s = long_press_handler s
  call on_btn_short_release s = short_release_handler s
  call on_btn_long_release s = long_release_handler s

  unfoldable pub call_all : List LampCallback → Node e → Node e
  call_all [] s = s
  call_all (f ∷ fs) s = call_all fs (call f s)

  unfoldable pub setup : Node e → Node e
  setup s =
      let restored = eeprom_restore e (reset e s) in
      record restored {
        button = register long_release on_btn_long_release (
            register short_release on_btn_short_release
              (register long_press on_btn_long_press restored.button));
      }

  unfoldable pub on_message_set_light_level : Incoming → Node e → Node e
  on_message_set_light_level m s = dimmer_level e (light_dimmer_convert (constrained m.int)) s

  unfoldable pub on_message_set_lamp_status : Incoming → Node e → Node e
  on_message_set_lamp_status m s = dimmer_switch e (not m.bool) fade_delay_fast_ms s

  unfoldable pub on_message_dump_data : Incoming → Node e → List Logged
  on_message_dump_data m s =
      logged_message m.sensor
      ∷ (logged_actual s.dimmer.actual
          ∷ (logged_target s.dimmer.target
              ∷ (logged_max s.dimmer.limit
                  ∷ (logged_delay s.dimmer.delay ∷ (logged_direction s.button_direction ∷ [])))))

  unfoldable pub on_message_set_relay_status : Incoming → Node e → Node e
  on_message_set_relay_status m s =
      if m.sensor == ms_relay1_id
      then record s { relay1 = set_status m.bool s.relay1 }
      else if m.sensor == ms_relay2_id
      then record s { relay2 = set_status m.bool s.relay2 }
      else s

  -- V_VAR1 logs the state, as other types log an error.
  unfoldable pub receive : Incoming → Node e → Node e
  unfolding on_message_set_light_level on_message_set_lamp_status on_message_set_relay_status
  receive m s =
      if m.sensor == ms_lamp_id
      then (if m.type == v_light_level
          then on_message_set_light_level m s
          else if m.type == v_light
          then on_message_set_lamp_status m s
          else s)
      else if m.sensor == ms_relay1_id || m.sensor == ms_relay2_id
      then on_message_set_relay_status m s
      else s

  unfoldable pub loop : Inputs → Node e → Node e
  loop i s =
      let faded = dimmer_process e i.now s in
      let (button', calls) = process i.lamp.level i.lamp.now i.lamp.later faded.button in
      let called = call_all calls (record faded { button = button' }) in
      let p1 = i.relay1_poll in
      let p2 = i.relay2_poll in
      record called {
        relay1 = relay_process p1.level p1.now p1.later called.relay1;
        relay2 = relay_process p2.level p2.now p2.later called.relay2;
      }

-- What happens to the node after set-up; interrupts come between any two of the other events.
pub data Event : Type 0 where
  message : Incoming → Event
  pass : Inputs → Event
  zero_crossing timer_tick : Event

module _ (e : Eeprom) where
  unfoldable pub step : Event → Node e → Node e
  step (message m) s = receive e m s
  step (pass i) s = loop e i s
  step zero_crossing s = on_zero_cross_detect e s
  step timer_tick s = on_timer_dim_check e s

  unfoldable pub steps : List Event → Node e → Node e
  steps [] s = s
  steps (x ∷ xs) s = steps xs (step x s)
