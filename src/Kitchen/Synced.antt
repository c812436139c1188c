-- ===== src/Kitchen/Synced.antt =====
-- The EEPROM and the storage of the Kitchen sketch, over messages and passes of the main loop.
use smarthouse_arduino.Base.{ℕ, ◌≡◌, refl, ◌∙◌, Bool, some, List, [], ◌∷◌, arith}
use smarthouse_arduino.Kitchen.Board.{Board, IsBoard}
use smarthouse_arduino.Kitchen.History.{Event, run}
use smarthouse_arduino.Kitchen.Invariant.{IsKept, history-IsKept}
use smarthouse_arduino.Kitchen.Leds.{
  leds_color_fade, leds_white_fade, leds_set_transition, leds_start_transition, leds_process,
  led_process_one, led_process_loop, leds_update,
}
use smarthouse_arduino.Kitchen.Networking.{
  Incoming, on_message_set_limit, on_message_set_transition, on_message_light,
}
use smarthouse_arduino.Kitchen.Parsing.{Stdlib}
use smarthouse_arduino.Kitchen.Sketch.{
  Callback, on_btn_short_release, on_btn_long_press, setup, call, call_all, change_mode,
  stop_transitions, loop,
}
use smarthouse_arduino.Kitchen.State.{
  Kitchen, ButtonMode, both, only_color, only_white, network_send_color_status,
  network_send_white_status,
}
use smarthouse_arduino.Kitchen.Store.{
  storage_version, checked, save_color_leds, save_white_leds, restore_color_leds,
  restore_white_leds,
}
use smarthouse_arduino.Kitchen.Types.{
  Rgbw, LedType, color, white, SwitchingSource, external, button, Storage, Transition, IsByteColor,
  IsByteStorage,
}
use smarthouse_arduino.NewButton.{NewButton, process}

-- Loading the EEPROM now would give the storage as it is; its version is the current one and its
-- colours are bytes.
pub record IsSynced (b : Board) (s : Kitchen b) : Type 0 where
  pub loads : checked (b.rom_get s.rom) ≡ s.storage
  pub current : s.storage.version ≡ storage_version
  pub bytes : IsByteStorage s.storage

-- Only the storage and the EEPROM matter.
abbrev pub Keeps : (b : Board) → Kitchen b → Kitchen b → Type 0
Keeps b s t = (t.rom ≡ s.rom) × (t.storage ≡ s.storage)

Keeps-IsSynced : (b : Board) (s t : Kitchen b) → Keeps b s t → IsSynced b s → IsSynced b t
Keeps-IsSynced b s t k i = record {
  loads = rw (k.0, k.1) i.loads;
  current = rw k.1 i.current;
  bytes = rw k.1 i.bytes;
}

checked-current : (s : Storage) → s.version ≡ storage_version → checked s ≡ s
unfolding checked
checked-current s h = ground arith

checked-bytes :
    (s : Storage)
    → IsByteStorage s
    → IsByteStorage (checked s) × ((checked s).version ≡ storage_version)
unfolding checked
checked-bytes s h = ground arith

module _ (b : Board) (doc : IsBoard b) where
  -- Start-up gives the storage of the EEPROM, or the full colours if that holds no current version.
  pub setup-IsSynced : (s : Kitchen b) → IsSynced b (setup b s)
  unfolding setup
  setup-IsSynced s =
      let (bytes, current) = checked-bytes (b.rom_get s.rom) (doc.rom_bytes s.rom) in
      record { loads = refl; current = current; bytes = bytes }

  put-IsSynced :
      (s : Kitchen b) (x : Storage)
      → IsByteStorage x
      → x.version ≡ storage_version
      → checked (b.rom_get (b.rom_put x s.rom)) ≡ x
  put-IsSynced s x h v = rw (doc.rom_get-rom_put x s.rom h) (checked-current x v)

  set_limit-IsSynced :
      (sensor : ℕ) (c : Rgbw) (source : SwitchingSource) (s : Kitchen b)
      → IsByteColor c
      → IsSynced b s
      → IsSynced b (on_message_set_limit b sensor c source s)
  unfolding on_message_set_limit save_color_leds save_white_leds leds_color_fade leds_white_fade
      network_send_color_status network_send_white_status leds_start_transition
  set_limit-IsSynced sensor c external s h i =
      let old = s.storage.external_colors in
      ground (
        arith,
        put-IsSynced s
            (record s.storage { external_colors = record old { r = c.r; g = c.g; b = c.b } }),
        put-IsSynced s (record s.storage { external_colors = record old { w = c.w } }),
      )
  set_limit-IsSynced sensor c button s h i =
      let old = s.storage.button_colors in
      ground (
        arith,
        put-IsSynced s
            (record s.storage { button_colors = record old { r = c.r; g = c.g; b = c.b } }),
        put-IsSynced s (record s.storage { button_colors = record old { w = c.w } }),
      )

  set_transition-Keeps :
      (sensor : ℕ) (x : Transition) (s : Kitchen b)
      → Keeps b s (on_message_set_transition b sensor x s)
  unfolding on_message_set_transition leds_set_transition leds_start_transition
      network_send_color_status network_send_white_status
  set_transition-Keeps sensor x s = ground arith

  light-Keeps : (m : Incoming) (s : Kitchen b) → Keeps b s (on_message_light b m s)
  unfolding on_message_light leds_color_fade leds_white_fade leds_start_transition
      restore_color_leds restore_white_leds
  light-Keeps m s = ground arith

  long_press-Keeps :
      (m : ButtonMode) (s : Kitchen b) → Keeps b s (change_mode b m (stop_transitions b s))
  unfolding change_mode stop_transitions
  long_press-Keeps both s = (refl, refl)
  long_press-Keeps only_color s = (refl, refl)
  long_press-Keeps only_white s = (refl, refl)

  call-Keeps : (f : Callback) (s : Kitchen b) → Keeps b s (call b f s)
  unfolding call leds_start_transition leds_color_fade leds_white_fade
  call-Keeps on_btn_short_release s = ground arith
  call-Keeps on_btn_long_press s = long_press-Keeps s.button_mode s

  call_all-Keeps : (fs : List Callback) (s : Kitchen b) → Keeps b s (call_all b fs s)
  unfolding call_all
  call_all-Keeps [] s = (refl, refl)
  call_all-Keeps (f ∷ fs) s =
      let k = call-Keeps f s in let k' = call_all-Keeps fs (call b f s) in (k'.0 ∙ k.0, k'.1 ∙ k.1)

  process_one-Keeps : (t : LedType) (s : Kitchen b) → Keeps b s (led_process_one b t s)
  unfolding led_process_one
  process_one-Keeps color s = ground arith
  process_one-Keeps white s = ground arith

  leds_process-Keeps : (s : Kitchen b) → Keeps b s (leds_process b s)
  unfolding leds_process led_process_loop leds_update
  leds_process-Keeps s =
      let lit = leds_update b s in
      let half = led_process_one b color lit in
      let k = process_one-Keeps color lit in
      let k' = process_one-Keeps white half in (k'.0 ∙ k.0, k'.1 ∙ k.1)

  pub loop-Keeps :
      (status : Bool) (now later : ℕ) (btn : NewButton Callback) (s : Kitchen b)
      → Keeps b s (loop b status now later (btn, s)).1
  unfolding loop
  loop-Keeps status now later btn s =
      let calls = (process status now later btn).1 in
      let t = record s { clock = later } in
      let k = call_all-Keeps calls t in
      let k' = leds_process-Keeps (call_all b calls t) in (k'.0 ∙ k.0, k'.1 ∙ k.1)

  IsSynced-IsKept : IsKept b (IsSynced b)
  IsSynced-IsKept = record {
    clock = λ now s i. Keeps-IsSynced b s _ (refl, refl) i;
    errno = λ e s i. Keeps-IsSynced b s _ (refl, refl) i;
    light = λ m s i. Keeps-IsSynced b s _ (light-Keeps m s) i;
    set_limit = set_limit-IsSynced;
    set_transition = λ sensor x s h h' i. Keeps-IsSynced b s _ (set_transition-Keeps sensor x s) i;
    pass = λ level now later btn s i. Keeps-IsSynced b s _ (loop-Keeps level now later btn s) i;
  }

  -- Over a board that behaves as documented, after any history from set-up that the parser survives,
  -- another set-up gives the storage as it is: the limits of both sources come back.
  pub power_cycle :
      (c : Stdlib) (es : List Event) (s : Kitchen b) (btn btn' : NewButton Callback)
      (s' : Kitchen b)
      → run b c es (btn, setup b s) ≡ some (btn', s')
      → (setup b s').storage ≡ s'.storage
  unfolding setup
  power_cycle c es s btn btn' s' h =
      (history-IsKept b (IsSynced b) IsSynced-IsKept c es btn btn' (setup b s) s' (setup-IsSynced s)
        h).loads
