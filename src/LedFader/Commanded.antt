-- ===== src/LedFader/Commanded.antt =====
-- A looping transition that a message to the Kitchen sketch asks for, over the faders.
use smarthouse_arduino.Base.{
  ℕ, ◌+◌, ◌<◌, ◌^◌, ◌≡◌, refl, subst, sym, ap, ◌∙◌, inr, Bool, true, Option, some, List, map, arith,
  length,
}
use smarthouse_arduino.Kitchen.Board.{Board}
use smarthouse_arduino.Kitchen.Parsing.Command.{parse_command}
use smarthouse_arduino.Kitchen.Leds.{
  leds_fade_from, leds_color_fade_from, leds_white_fade_from, leds_start_transition,
  leds_set_transition,
}
use smarthouse_arduino.Kitchen.Networking.{
  Incoming, receive, on_message_var1, run_command, on_command, on_message_set_transition,
}
use smarthouse_arduino.Kitchen.Parsing.{Bytes, Stdlib, CommandData}
use smarthouse_arduino.Kitchen.Parsing.Payloads.{transition_payload}
use smarthouse_arduino.Kitchen.Parsing.Accept.{parse_command-transition}
use smarthouse_arduino.Kitchen.Parsing.Text.{IsDocumented, decimal_from, IsDigits, shown}
use smarthouse_arduino.Kitchen.Passes.{leds, TurnsWithin}
use smarthouse_arduino.Kitchen.State.{
  Kitchen, trans_run, color_leds_id, white_led_id, v_var1, network_send_color_status,
  network_send_white_status,
}
use smarthouse_arduino.Kitchen.Types.{
  transition_loop, Rgbw, LedType, color, white, Transition, IsByteColor,
}
use smarthouse_arduino.LedFader.{Float, IsFloat, min_interval}
use smarthouse_arduino.LedFader.Fade.{Times, last_of}
use smarthouse_arduino.LedFader.Implements.{Rom, fader_board}
use smarthouse_arduino.LedFader.Turning.{reading, AllLate, started, transition_turns_in_time}
use smarthouse_arduino.NewButton.Hold.{clock_mod}

abbrev pub sensor_of : LedType → ℕ
sensor_of color = color_leds_id
sensor_of white = white_led_id

-- The message that asks for a looping transition by a text.
abbrev pub loop_message : LedType → Rgbw → Rgbw → Bytes → Bool → Incoming
loop_message t x y ds flag = record {
  sensor = sensor_of t;
  type = v_var1;
  bool = flag;
  string = some (transition_payload transition_loop t x y ds);
}

abbrev pub asked : LedType → Rgbw → Rgbw → Bytes → Transition
asked t x y ds = record {
  start = shown t x;
  stop = shown t y;
  time = decimal_from 0 ds;
  is_loop = true;
}

shown-IsByteColor : (t : LedType) (x : Rgbw) → IsByteColor x → IsByteColor (shown t x)
shown-IsByteColor color x b = omega (arith, b)
shown-IsByteColor white x b = omega (arith, b)

module _ (b : Board) where
  -- The globals with a reading of millis() and no error of the parser.
  abbrev pub at : ℕ → Kitchen b → Kitchen b
  at now s = record s { clock = now; errno = 0 }

  abbrev pub commanded : LedType → Transition → Kitchen b → Kitchen b
  commanded t x s = on_message_set_transition b (sensor_of t) x s

  -- The globals in which the handler starts the transition: it is set, and the status is sent.
  abbrev told : LedType → Transition → Kitchen b → Kitchen b
  told color x s = network_send_color_status b true (leds_set_transition b color x s)
  told white x s = network_send_white_status b true (leds_set_transition b white x s)

  commanded-told :
      (t : LedType) (x : Transition) (s : Kitchen b)
      → commanded t x s ≡ leds_start_transition b t true (told t x s)
  unfolding on_message_set_transition leds_set_transition leds_start_transition leds_fade_from
      leds_color_fade_from leds_white_fade_from network_send_color_status network_send_white_status
  commanded-told color x s = refl
  commanded-told white x s = refl

  told_clock :
      (t : LedType) (x : Transition) (now : ℕ) (s : Kitchen b)
      → record (told t x (at now s)) { clock = now } ≡ told t x (at now s)
  unfolding leds_set_transition network_send_color_status network_send_white_status
  told_clock color x now s = refl
  told_clock white x now s = refl

  commanded-transition :
      (t : LedType) (x : Transition) (s : Kitchen b)
      → (trans_run b t (commanded t x s)).transition ≡ x
  unfolding on_message_set_transition leds_set_transition leds_start_transition leds_fade_from
      leds_color_fade_from leds_white_fade_from network_send_color_status network_send_white_status
  commanded-transition color x s = refl
  commanded-transition white x s = refl

  told-transition :
      (t : LedType) (x : Transition) (s : Kitchen b) → (trans_run b t (told t x s)).transition ≡ x
  unfolding leds_set_transition network_send_color_status network_send_white_status
  told-transition color x s = refl
  told-transition white x s = refl

  run_command_lem :
      (c : Stdlib) (sensor : ℕ) (payload : Option Bytes) (t : LedType) (s : Kitchen b)
      (d : CommandData)
      → parse_command c payload t s.errno ≡ some (d, 0)
      → run_command b c sensor payload t s ≡ some (on_command b sensor d (record s { errno = 0 }))
  unfolding run_command
  run_command_lem c sensor payload t s d h = rw (h, run_command) refl

  receive-run_command :
      (c : Stdlib) (t : LedType) (x y : Rgbw) (ds : Bytes) (flag : Bool) (s : Kitchen b)
      → receive b c (loop_message t x y ds flag) s
        ≡ run_command b c (sensor_of t) (loop_message t x y ds flag).string t s
  unfolding receive on_message_var1
  receive-run_command c color x y ds flag s = refl
  receive-run_command c white x y ds flag s = refl

  receive-commanded :
      (c : Stdlib) (t : LedType) (x y : Rgbw) (ds : Bytes) (flag : Bool) (now : ℕ) (s : Kitchen b)
      → IsDocumented c
      → IsByteColor x
      → IsByteColor y
      → IsDigits ds
      → length ds < 34
      → min_interval < decimal_from 0 ds
      → decimal_from 0 ds < 2 ^ 32
      → receive b c (loop_message t x y ds flag) (at now s)
        ≡ some (commanded t (asked t x y ds) (at now s))
  unfolding on_command
  receive-commanded c t x y ds flag now s std bx by d short min fits =
      let parsed =
        parse_command-transition c transition_loop true t x y ds std (inr (refl, refl)) bx by d
          short min fits in
      receive-run_command c t x y ds flag (at now s)
      ∙ run_command_lem c (sensor_of t) (loop_message t x y ds flag).string t (at now s) _ parsed

module _ {f : Float} (doc : IsFloat f) (m : Rom) where
  -- With the documented C library, which prints something for a NULL string, and arithmetic of `float`:
  -- the sketch over the faders, with `errno` 0, receives a message whose text asks for a looping
  -- transition of byte colours, with a time of fewer than 34 digits that is above the minimum and fits
  -- 32 bits. It sets that transition and starts it, and the transition turns within the passes of
  -- `leds_process`, at any times in order that are less than 2 ^ 32 milliseconds later, if the last pass
  -- is at least the time and an interval of each of its faders after the message.
  pub received_transition_turns :
      (c : Stdlib) (t : LedType) (x y : Rgbw) (ds : Bytes) (flag : Bool) (start : ℕ) (us : List ℕ)
      (s : Kitchen (fader_board f m))
      → IsDocumented c
      → IsByteColor x
      → IsByteColor y
      → IsDigits ds
      → length ds < 34
      → min_interval < decimal_from 0 ds
      → decimal_from 0 ds < 2 ^ 32
      → Times start (start + clock_mod) us
      → let asks = asked t x y ds in
        let s' = commanded (fader_board f m) t asks (at (fader_board f m) (reading start) s) in
        AllLate doc m (start + decimal_from 0 ds) (last_of start us) (leds (fader_board f m) t s')
        → (receive
              (fader_board f m)
              c
              (loop_message t x y ds flag)
              (at (fader_board f m) (reading start) s)
            ≡ some s')
          × ((trans_run (fader_board f m) t s').transition ≡ asks)
          × TurnsWithin (fader_board f m) t (map reading us) s'
  received_transition_turns c t x y ds flag start us s std bx by d short min fits times late =
      let board = fader_board f m in
      let asks = asked t x y ds in
      let state = at board (reading start) s in
      let set = told board t asks state in
      let sets = told-transition board t asks state in
      let begins : commanded board t asks state ≡ started doc m t start set =
        commanded-told board t asks state
        ∙ ap (leds_start_transition board t true)
            (sym (told_clock board t asks (reading start) s)) in
      let late' : AllLate doc m (start + (trans_run board t set).transition.time) (last_of start us)
          (leds board t (started doc m t start set)) =
        subst
          (λ k.
            AllLate doc m (start + k) (last_of start us) (leds board t (started doc m t start set)))
          (sym (ap (λ k. k.time) sets))
          (subst (λ k. AllLate doc m (start + asks.time) (last_of start us) (leds board t k)) begins
            late) in
      let byte = subst IsByteColor (sym (ap (λ k. k.stop) sets)) (shown-IsByteColor t y by) in
      let turns =
        transition_turns_in_time doc m t start us set (ap (λ k. k.is_loop) sets) byte
          (rw sets (omega (arith, min))) times late' in
      (
        receive-commanded board c t x y ds flag (reading start) s std bx by d short min fits,
        commanded-transition board t asks state,
        subst (TurnsWithin board t (map reading us)) (sym begins) turns,
      )
