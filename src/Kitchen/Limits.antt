-- ===== src/Kitchen/Limits.antt =====
-- The limit of a sensor: the controller's command, and the light switch after it.
use smarthouse_arduino.Base.{ℕ, ◌≡◌, refl, ap, subst, ◌∙◌, inl, inr, true, false, some, arith}
use smarthouse_arduino.Kitchen.Aim.{AimsAt}
use smarthouse_arduino.Kitchen.Board.{Board, IsBoard}
use smarthouse_arduino.Kitchen.Leds.{
  leds_color_fade, leds_white_fade, leds_start_transition, fade_time_ms,
}
use smarthouse_arduino.Kitchen.Networking.{
  on_message_light, on_message_set_limit, on_command, run_command, on_message_var1, receive,
}
use smarthouse_arduino.Kitchen.Parsing.{Stdlib}
use smarthouse_arduino.Kitchen.Parsing.Payloads.{limit_payload}
use smarthouse_arduino.Kitchen.Parsing.Accept.{parse_command-limit}
use smarthouse_arduino.Kitchen.Parsing.Text.{shown, IsDocumented}
use smarthouse_arduino.Kitchen.State.{
  Kitchen, color_leds_id, white_led_id, network_send_color_status, network_send_white_status,
}
use smarthouse_arduino.Kitchen.Store.{save_color_leds, save_white_leds, colors, set_colors}
use smarthouse_arduino.Kitchen.Types.{
  Rgbw, LedType, color, white, no_color, IsByteColor, SwitchingSource, external, button,
  light_set_ext_limit, light_set_button_limit,
}
use smarthouse_arduino.Kitchen.Remote.{
  sensor_of, light_message, command_message, Switched, receive_light,
}

module _ {b : Board} (doc : IsBoard b) where
  abbrev pub code_of : SwitchingSource → ℕ
  code_of external = light_set_ext_limit
  code_of button = light_set_button_limit

  -- A stored colour with the channels of one kind of LED replaced.
  abbrev pub merged : LedType → Rgbw → Rgbw → Rgbw
  merged color x y = record x { w = y.w }
  merged white x y = record y { w = x.w }

  shown-IsByteColor : (t : LedType) (x : Rgbw) → IsByteColor x → IsByteColor (shown t x)
  shown-IsByteColor color x h = (h.0, h.1, h.2, omega arith)
  shown-IsByteColor white x h = (omega arith, omega arith, omega arith, h.3)

  set_limit_lem :
      (t : LedType) (source : SwitchingSource) (x : Rgbw) (s : Kitchen b)
      → IsByteColor x
      → let s' = on_message_set_limit b (sensor_of t) (shown t x) source s in
        Switched doc t x true s s'
        × (s'.storage ≡ set_colors source (merged t x (colors source s.storage)) s.storage)
        × (s'.errno ≡ s.errno)
  unfolding on_message_set_limit leds_start_transition leds_color_fade leds_white_fade
      save_color_leds save_white_leds network_send_color_status network_send_white_status
  set_limit_lem color source x s h = (
    record {
      goes = (
        doc.destination-fade s.clock x.r fade_time_ms s.led_r h.0,
        doc.destination-fade s.clock x.g fade_time_ms s.led_g h.1,
        doc.destination-fade s.clock x.b fade_time_ms s.led_b h.2,
      );
      no_run = refl;
      told = refl;
      others = refl;
    },
    refl,
    refl,
  )
  set_limit_lem white source x s h = (
    record {
      goes = doc.destination-fade s.clock x.w fade_time_ms s.led_w h.3;
      no_run = refl;
      told = refl;
      others = refl;
    },
    refl,
    refl,
  )

  errno_lem : (s : Kitchen b) → s.errno ≡ 0 → record s { errno = 0 } ≡ s
  errno_lem s e = ground arith

  run_limit :
      (c : Stdlib) (t : LedType) (source : SwitchingSource) (x : Rgbw) (s : Kitchen b)
      → IsDocumented c
      → IsByteColor x
      → s.errno ≡ 0
      → run_command b c (sensor_of t) (some (limit_payload (code_of source) t x)) t s
        ≡ some (on_message_set_limit b (sensor_of t) (shown t x) source s)
  unfolding run_command on_command
  run_limit c t external x s d h e =
      rw
        (
          run_command,
          e,
          parse_command-limit c light_set_ext_limit t x d (inl refl) h,
          errno_lem s e,
        )
        refl
  run_limit c t button x s d h e =
      rw
        (
          run_command,
          e,
          parse_command-limit c light_set_button_limit t x d (inr refl) h,
          errno_lem s e,
        )
        refl

  -- With a C library and a board that behave as documented, of which the library prints something for a
  -- NULL string, a V_VAR1 message with the text of a limit of byte colours, received while errno is 0,
  -- brings the sensor's LEDs to the limit's colour, stops their transition, reports them on, leaves the
  -- other LEDs as they are, stores the limit's channels for the source of the command and nothing else,
  -- and keeps errno at 0.
  pub receive_limit :
      (c : Stdlib) (t : LedType) (source : SwitchingSource) (x : Rgbw) (s : Kitchen b)
      → IsDocumented c
      → IsByteColor x
      → s.errno ≡ 0
      → (s' : Kitchen b) × (receive b c (command_message t (limit_payload (code_of source) t x)) s
          ≡ some s')
        × Switched doc t x true s s'
        × (s'.storage ≡ set_colors source (merged t x (colors source s.storage)) s.storage)
        × (s'.errno ≡ 0)
  unfolding receive on_message_var1
  receive_limit c color source x s d h e =
      let (switched, stored, clear) = set_limit_lem color source x s h in
      (
        on_message_set_limit b color_leds_id (shown color x) source s,
        run_limit c color source x s d h e,
        switched,
        stored,
        clear ∙ e,
      )
  receive_limit c white source x s d h e =
      let (switched, stored, clear) = set_limit_lem white source x s h in
      (
        on_message_set_limit b white_led_id (shown white x) source s,
        run_limit c white source x s d h e,
        switched,
        stored,
        clear ∙ e,
      )

  merged-bytes :
      (t : LedType) (x y : Rgbw) → IsByteColor x → IsByteColor y → IsByteColor (merged t x y)
  merged-bytes color x y h h' = (h.0, h.1, h.2, h'.3)
  merged-bytes white x y h h' = (h'.0, h'.1, h'.2, h.3)

  AimsAt-merged :
      (t : LedType) (x y : Rgbw) (s : Kitchen b) → AimsAt doc t (merged t x y) s → AimsAt doc t x s
  AimsAt-merged color x y s h = h
  AimsAt-merged white x y s h = h

  -- With errno 0, byte colours, and a C library and a board that behave as documented, of which the
  -- library prints something for a NULL string: after the command of an external limit, a V_LIGHT
  -- message that switches the sensor off and one that switches it on again bring the LEDs to black and
  -- then to the limit's colour.
  pub limit_remembered :
      (c : Stdlib) (t : LedType) (x : Rgbw) (s : Kitchen b)
      → IsDocumented c
      → IsByteColor x
      → IsByteColor s.storage.external_colors
      → s.errno ≡ 0
      → (limited off on : Kitchen b) × (receive b c
            (command_message t (limit_payload light_set_ext_limit t x))
            s
          ≡ some limited)
        × (receive b c (light_message t false) limited ≡ some off)
        × (receive b c (light_message t true) off ≡ some on)
        × AimsAt doc t no_color off
        × AimsAt doc t x on
  limit_remembered c t x s d h h' e =
      let (limited, went, _, stored, _) = receive_limit c t external x s d h e in
      let y = merged t x s.storage.external_colors in
      let bytes : IsByteColor limited.storage.external_colors =
        rw stored (merged-bytes t x s.storage.external_colors h h') in
      let off = on_message_light b (light_message t false) limited in
      let (went_off, dark, same, _) = receive_light doc c t false limited bytes in
      let bytes' : IsByteColor off.storage.external_colors = rw same bytes in
      let (went_on, lit, _, _) = receive_light doc c t true off bytes' in
      let kept : off.storage.external_colors ≡ y = ap (λ st. st.external_colors) (same ∙ stored) in
      (
        limited,
        off,
        on_message_light b (light_message t true) off,
        went,
        went_off,
        went_on,
        dark.goes,
        AimsAt-merged t x s.storage.external_colors _ (
            subst (λ z. AimsAt doc t z (on_message_light b (light_message t true) off)) kept
              lit.goes),
      )
