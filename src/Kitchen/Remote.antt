-- ===== src/Kitchen/Remote.antt =====
-- What the controller's light switch does to the LEDs.
use smarthouse_arduino.Base.{ℕ, ◌≡◌, refl, Bool, true, false, none, some, ◌∷◌, arith, if◌then◌else◌}
use smarthouse_arduino.Kitchen.Aim.{AimsAt, part}
use smarthouse_arduino.Kitchen.Board.{Board, IsBoard}
use smarthouse_arduino.Kitchen.Leds.{
  leds_color_fade, leds_white_fade, leds_start_transition, fade_time_ms,
}
use smarthouse_arduino.Kitchen.Networking.{Incoming, on_message_light, receive}
use smarthouse_arduino.Kitchen.Parsing.{Bytes, Stdlib}
use smarthouse_arduino.Kitchen.Presses.{status_of}
use smarthouse_arduino.Kitchen.State.{
  Kitchen, trans_run, v_light, v_var1, color_leds_id, white_led_id, network_send_color_status,
  network_send_white_status,
}
use smarthouse_arduino.Kitchen.Store.{restore_color_leds, restore_white_leds}
use smarthouse_arduino.Kitchen.Types.{Rgbw, LedType, color, white, no_color, IsByteColor}

abbrev pub sensor_of : LedType → ℕ
sensor_of color = color_leds_id
sensor_of white = white_led_id

abbrev pub other : LedType → LedType
other color = white
other white = color

-- The switch of one kind of LED, and a command for it.
abbrev pub light_message : LedType → Bool → Incoming
light_message t on = record { sensor = sensor_of t; type = v_light; bool = on; string = none }

abbrev pub command_message : LedType → Bytes → Incoming
command_message t payload = record {
  sensor = sensor_of t;
  type = v_var1;
  bool = false;
  string = some payload;
}

module _ {b : Board} (doc : IsBoard b) where
  -- The LEDs of one kind come to rest at a colour without a transition; the controller is told whether
  -- they are on; the LEDs of the other kind are as before.
  pub record Switched (t : LedType) (c : Rgbw) (on : Bool) (s s' : Kitchen b) : Type 0 where
    pub goes : AimsAt doc t c s'
    pub no_run : (trans_run b t s').running ≡ false
    pub told : s'.sent ≡ status_of (sensor_of t) (if on then 1 else 0) ∷ s.sent
    pub others : part doc (other t) s' ≡ part doc (other t) s

  -- With stored external colours that are bytes and a board that behaves as documented, a V_LIGHT
  -- message brings the LEDs of its sensor to the stored external colour or to black, stops their
  -- transition, reports their status, and leaves the other LEDs, the storage and the EEPROM as they
  -- are.
  pub receive_light :
      (c : Stdlib) (t : LedType) (on : Bool) (s : Kitchen b)
      → IsByteColor s.storage.external_colors
      → let s' = on_message_light b (light_message t on) s in
        (receive b c (light_message t on) s ≡ some s')
        × Switched t (if on then s.storage.external_colors else no_color) on s s'
        × (s'.storage ≡ s.storage)
        × (s'.rom ≡ s.rom)
  unfolding receive on_message_light leds_start_transition leds_color_fade leds_white_fade
      restore_color_leds restore_white_leds network_send_color_status network_send_white_status
  receive_light c color true s h =
      let x = s.storage.external_colors in
      (
        refl,
        record {
          goes = (
            doc.destination-fade s.clock x.r fade_time_ms s.led_r h.0,
            doc.destination-fade s.clock x.g fade_time_ms s.led_g h.1,
            doc.destination-fade s.clock x.b fade_time_ms s.led_b h.2,
          );
          no_run = refl;
          told = refl;
          others = refl;
        },
        refl,
        refl,
      )
  receive_light c color false s h = (
    refl,
    record {
      goes = (
        doc.destination-fade s.clock 0 fade_time_ms s.led_r (omega arith),
        doc.destination-fade s.clock 0 fade_time_ms s.led_g (omega arith),
        doc.destination-fade s.clock 0 fade_time_ms s.led_b (omega arith),
      );
      no_run = refl;
      told = refl;
      others = refl;
    },
    refl,
    refl,
  )
  receive_light c white true s h = (
    refl,
    record {
      goes = doc.destination-fade s.clock s.storage.external_colors.w fade_time_ms s.led_w h.3;
      no_run = refl;
      told = refl;
      others = refl;
    },
    refl,
    refl,
  )
  receive_light c white false s h = (
    refl,
    record {
      goes = doc.destination-fade s.clock 0 fade_time_ms s.led_w (omega arith);
      no_run = refl;
      told = refl;
      others = refl;
    },
    refl,
    refl,
  )
