-- ===== src/Kitchen/Memory.antt =====
-- What the Kitchen sketch remembers, against the machine that knows nothing of LEDs.
use mathlib.Core.Option
use smarthouse_arduino.Base.{
  ℕ, ◌≡◌, refl, ap, sym, ◌∙◌, inl, inr, Option, none, some, List, [], ◌∷◌, Option-cases, arith,
}
use smarthouse_arduino.Kitchen.Board.{Board}
use smarthouse_arduino.Kitchen.History.{Event, message, pass, Device, step, run}
use smarthouse_arduino.Kitchen.Leds.{
  leds_process, led_process_one, led_process_loop, leds_update, leds_fade_from,
  leds_start_transition, leds_set_transition, leds_color_fade, leds_white_fade,
}
use smarthouse_arduino.Kitchen.Networking.{
  Incoming, receive, on_message_light, on_message_var1, run_command, on_command,
  on_message_set_limit, on_message_set_transition,
}
use smarthouse_arduino.Kitchen.Parsing.{Bytes, Stdlib, CommandData, limit}
use smarthouse_arduino.Kitchen.Parsing.Command.{parse_command}
use smarthouse_arduino.Kitchen.Presses.{next}
use smarthouse_arduino.Kitchen.Sketch.{
  Callback, on_btn_short_release, on_btn_long_press, call, call_all, loop, change_mode,
  stop_transitions,
}
use smarthouse_arduino.Kitchen.State.{
  Kitchen, ButtonMode, both, only_color, only_white, network_send_color_status,
  network_send_white_status,
}
use smarthouse_arduino.Kitchen.Store.{
  save_color_leds, save_white_leds, restore_color_leds, restore_white_leds,
}
use smarthouse_arduino.Kitchen.Types.{
  Rgbw, LedType, color, white, SwitchingSource, external, button,
}
use smarthouse_arduino.NewButton.{NewButton, process}
use smarthouse_arduino.Kitchen.Recorder.{
  Memory, set_channels, obey, read_text, hear, press, press_all, Recorder, note, notes,
}

module _ (b : Board) where
  abbrev pub remembers : Kitchen b → Memory
  remembers s = record { stored = s.storage; mode = s.button_mode; errno = s.errno }

  abbrev pub recorder : Device b → Recorder
  recorder d = (d.0, remembers d.1)

  set_limit-remembers :
      (sensor : ℕ) (c : Rgbw) (source : SwitchingSource) (s : Kitchen b)
      → remembers (on_message_set_limit b sensor c source s)
        ≡ record (remembers s) { stored = set_channels sensor c source s.storage }
  unfolding on_message_set_limit save_color_leds save_white_leds leds_color_fade leds_white_fade
      network_send_color_status network_send_white_status leds_start_transition
  set_limit-remembers sensor c source s = ground arith

  set_transition-remembers :
      (sensor : ℕ) (d : CommandData) (s : Kitchen b)
      → remembers (on_message_set_transition b sensor d.transition s) ≡ remembers s
  unfolding on_message_set_transition leds_set_transition leds_start_transition leds_fade_from
      network_send_color_status network_send_white_status
  set_transition-remembers sensor d s = ground arith

  light-remembers :
      (m : Incoming) (s : Kitchen b) → remembers (on_message_light b m s) ≡ remembers s
  unfolding on_message_light leds_color_fade leds_white_fade leds_start_transition
      restore_color_leds restore_white_leds
  light-remembers m s = ground arith

  command-remembers :
      (sensor : ℕ) (d : CommandData) (s : Kitchen b)
      → remembers (on_command b sensor d s) ≡ obey sensor d (remembers s)
  unfolding on_command
  command-remembers sensor d s = ground (
    arith,
    set_limit-remembers sensor (limit d) external s,
    set_limit-remembers sensor (limit d) button s,
    set_transition-remembers sensor d s,
  )

  read_text-remembers :
      (c : Stdlib) (sensor : ℕ) (payload : Option Bytes) (t : LedType) (s : Kitchen b)
      → Option.map remembers (run_command b c sensor payload t s)
        ≡ read_text c sensor payload t (remembers s)
  unfolding run_command read_text
  read_text-remembers c sensor payload t s =
      elim (Option-cases (parse_command c payload t s.errno)) [
        | inl fault ↦ rw (fault, run_command, read_text) refl
        | inr ((d, e), parsed) ↦
            rw (parsed, run_command, read_text)
              (ap some (command-remembers sensor d (record s { errno = e })))
      ]

  receive-remembers :
      (c : Stdlib) (m : Incoming) (s : Kitchen b)
      → Option.map remembers (receive b c m s) ≡ hear c m (remembers s)
  unfolding receive on_message_var1 hear
  receive-remembers c m s = ground (
    arith,
    light-remembers m s,
    read_text-remembers c m.sensor m.string color s,
    read_text-remembers c m.sensor m.string white s,
  )

  mode-remembers :
      (m : ButtonMode) (s : Kitchen b)
      → remembers (change_mode b m (stop_transitions b s)) ≡ record (remembers s) { mode = next m }
  unfolding change_mode stop_transitions
  mode-remembers both s = refl
  mode-remembers only_color s = refl
  mode-remembers only_white s = refl

  call-remembers : (f : Callback) (s : Kitchen b) → remembers (call b f s) ≡ press f (remembers s)
  unfolding call leds_start_transition leds_color_fade leds_white_fade
  call-remembers on_btn_short_release s = ground arith
  call-remembers on_btn_long_press s = mode-remembers s.button_mode s

  call_all-remembers :
      (fs : List Callback) (s : Kitchen b)
      → remembers (call_all b fs s) ≡ press_all fs (remembers s)
  unfolding call_all
  call_all-remembers [] s = refl
  call_all-remembers (f ∷ fs) s =
      call_all-remembers fs (call b f s) ∙ ap (press_all fs) (call-remembers f s)

  one-remembers : (t : LedType) (s : Kitchen b) → remembers (led_process_one b t s) ≡ remembers s
  unfolding led_process_one leds_fade_from
  one-remembers color s = ground arith
  one-remembers white s = ground arith

  process-remembers : (s : Kitchen b) → remembers (leds_process b s) ≡ remembers s
  unfolding leds_process led_process_loop leds_update
  process-remembers s =
      let lit = leds_update b s in
      one-remembers white (led_process_one b color lit) ∙ one-remembers color lit

  regroup :
      (btn : NewButton Callback) (r : Option (Kitchen b))
      → Option.map recorder (Option.map (λ (s : Kitchen b). (btn, s)) r)
        ≡ Option.map (λ (m : Memory). (btn, m)) (Option.map remembers r)
  regroup btn none = refl
  regroup btn (some s) = refl

  step-recorder :
      (c : Stdlib) (e : Event) (d : Device b)
      → Option.map recorder (step b c e d) ≡ note c e (recorder d)
  unfolding step loop note
  step-recorder c (message now m) (btn, s) =
      let s1 : Kitchen b = record s { clock = now } in
      regroup btn (receive b c m s1)
      ∙ ap (Option.map (λ (x : Memory). (btn, x))) (receive-remembers c m s1)
  step-recorder c (pass status now later) (btn, s) =
      let (btn', calls) = process status now later btn in
      let s1 : Kitchen b = record s { clock = later } in
      ap (λ (m : Memory). some (btn', m))
        (process-remembers (call_all b calls s1) ∙ call_all-remembers calls s1)

  -- Whatever the LEDs and their transitions do: after any history the stored colours, the mode, `errno`
  -- and the button are those of a machine that only obeys limit commands and goes to the next mode at a
  -- long press, and the history makes the parser leave the language exactly if it does so there.
  pub run-recorder :
      (c : Stdlib) (es : List Event) (d : Device b)
      → Option.map recorder (run b c es d) ≡ notes c es (recorder d)
  unfolding run notes
  run-recorder c [] d = refl
  run-recorder c (e ∷ es) d = elim (Option-cases (step b c e d)) [
    | inl fault ↦
        rw (fault, run, sym (step-recorder c e d) ∙ ap (Option.map recorder) fault, notes) refl
    | inr (d', went) ↦
        rw (went, run, sym (step-recorder c e d) ∙ ap (Option.map recorder) went, notes)
          (run-recorder c es d')
  ]
