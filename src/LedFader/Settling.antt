-- ===== src/LedFader/Settling.antt =====
-- A short release of the Kitchen button over the faders, until the LEDs are at rest.
use smarthouse_arduino.Base.{
  ℕ, ◌*◌, ◌+◌, ◌≤◌, ◌<◌, ◌≡◌, refl, Bool, true, false, not, List, [], ◌∷◌, ◌++◌, map, arith, ◌↔◌,
  if◌then◌else◌,
}
use smarthouse_arduino.Kitchen.Leds.{fade_time_ms, led_values}
use smarthouse_arduino.Kitchen.Loops.{settled_choice}
use smarthouse_arduino.Kitchen.Outcomes.{Settled}
use smarthouse_arduino.Kitchen.Passes.{leds, passes_at}
use smarthouse_arduino.Kitchen.Sketch.{
  short_release_handler, switch_leds_by_button, stop_transitions,
}
use smarthouse_arduino.Kitchen.State.{Kitchen}
use smarthouse_arduino.Kitchen.Store.{is_stored_equal}
use smarthouse_arduino.Kitchen.Types.{Rgbw, color, white, button, no_color, IsByteColor}
use smarthouse_arduino.LedFader.{Float, IsFloat}
use smarthouse_arduino.LedFader.Completion.{begun_interval}
use smarthouse_arduino.LedFader.Fade.{Times, last_of}
use smarthouse_arduino.LedFader.Implements.{Rom, IsRom, Led, fader_board, laws}
use smarthouse_arduino.LedFader.Turning.{reading, AllLate}
use smarthouse_arduino.NewButton.Hold.{clock_mod}
use smarthouse_arduino.LedFader.Resting.{AllOver, AllLate-AllOver, fades_settle}

module _ {f : Float} (doc : IsFloat f) (m : Rom) (rom : IsRom m) where
  switch_settles :
      (on : Bool) (start : ℕ) (us : List ℕ) (s : Kitchen (fader_board f m))
      → IsByteColor s.storage.button_colors
      → Times start (start + clock_mod) us
      → let s1 = switch_leds_by_button (fader_board f m) on (record s { clock = reading start }) in
        AllOver doc m rom
          (start + fade_time_ms)
          (last_of start us)
          (leds (fader_board f m) color s1 ++ leds (fader_board f m) white s1)
        → Settled
            (laws doc m rom)
            (if on then s.storage.button_colors else no_color)
            (passes_at (fader_board f m) (map reading us) s1)
  unfolding switch_leds_by_button stop_transitions
  switch_settles true start us s byte times late =
      fades_settle doc m rom s.storage.button_colors fade_time_ms start us s _ byte times refl refl
        refl refl refl refl late
  switch_settles false start us s byte times late =
      fades_settle doc m rom no_color fade_time_ms start us s _
        (omega arith, omega arith, omega arith, omega arith) times refl refl refl refl refl refl
        late

  release_settles :
      (c : Rgbw) (start : ℕ) (us : List ℕ) (s : Kitchen (fader_board f m))
      → IsByteColor s.storage.button_colors
      → Settled (laws doc m rom) c s
      → Times start (start + clock_mod) us
      → let s1 = short_release_handler (fader_board f m) (record s { clock = reading start }) in
        AllOver doc m rom
          (start + fade_time_ms)
          (last_of start us)
          (leds (fader_board f m) color s1 ++ leds (fader_board f m) white s1)
        → (on : Bool) × Settled
            (laws doc m rom)
            (if on then s.storage.button_colors else no_color)
            (passes_at (fader_board f m) (map reading us) s1)
          × ((on ≡ false) ↔ (c ≡ s.storage.button_colors))
  unfolding short_release_handler is_stored_equal led_values
  release_settles c start us s byte settled times late =
      let on = not (is_stored_equal (fader_board f m) button (led_values (fader_board f m) s) s) in
      (
        on,
        switch_settles on start us s byte times late,
        settled_choice (laws doc m rom) s c settled,
      )

  -- With the documented arithmetic of `float`, a memory that behaves as documented and a stored button
  -- colour of bytes: a short release of the button, of faders at rest at a colour and without a
  -- transition, followed by passes of `leds_process` at any times in order that are less than 2 ^ 32
  -- milliseconds after it, the last of them at least the time of the fade and an interval of each
  -- fader after it, leaves them at rest without a transition: at black exactly if the colour was
  -- the stored one, and otherwise at that.
  pub short_release_settles :
      (c : Rgbw) (start : ℕ) (us : List ℕ) (s : Kitchen (fader_board f m))
      → IsByteColor s.storage.button_colors
      → Settled (laws doc m rom) c s
      → Times start (start + clock_mod) us
      → let s1 = short_release_handler (fader_board f m) (record s { clock = reading start }) in
        AllLate doc m
          (start + fade_time_ms)
          (last_of start us)
          (leds (fader_board f m) color s1 ++ leds (fader_board f m) white s1)
        → (on : Bool) × Settled
            (laws doc m rom)
            (if on then s.storage.button_colors else no_color)
            (passes_at (fader_board f m) (map reading us) s1)
          × ((on ≡ false) ↔ (c ≡ s.storage.button_colors))
  short_release_settles c start us s byte settled times late =
      let s1 = short_release_handler (fader_board f m) (record s { clock = reading start }) in
      release_settles c start us s byte settled times (
        AllLate-AllOver doc m rom (start + fade_time_ms) (last_of start us)
          (leds (fader_board f m) color s1 ++ leds (fader_board f m) white s1) late)

  -- Steps of at most the time of the fade are over in twice that time.
  led_over :
      (start v last : ℕ) (l : Led f)
      → v < 256
      → start + 2 * fade_time_ms ≤ last
      → let begun = (fader_board f m).fade (reading start) v fade_time_ms l in
        0 < begun.0.duration → start + fade_time_ms + begun.0.interval ≤ last
  led_over start v last l byte late going =
      omega (arith, begun_interval doc start v fade_time_ms l.0 byte (omega arith) going)

  fades_over :
      (c : Rgbw) (start last : ℕ) (r g b w : Led f)
      → IsByteColor c
      → start + 2 * fade_time_ms ≤ last
      → let begun =
          λ (v : ℕ) (l : Led f). (fader_board f m).fade (reading start) v fade_time_ms l in
        AllOver doc m rom
          (start + fade_time_ms)
          last
          (begun c.r r ∷ (begun c.g g ∷ (begun c.b b ∷ (begun c.w w ∷ []))))
  fades_over c start last r g b w byte late = (
    led_over start c.r last r byte.0 late,
    (
      led_over start c.g last g byte.1 late,
      (led_over start c.b last b byte.2 late, (led_over start c.w last w byte.3 late, tt)),
    ),
  )

  switch_over :
      (on : Bool) (start last : ℕ) (s : Kitchen (fader_board f m))
      → IsByteColor s.storage.button_colors
      → start + 2 * fade_time_ms ≤ last
      → let s1 = switch_leds_by_button (fader_board f m) on (record s { clock = reading start }) in
        AllOver doc m rom
          (start + fade_time_ms)
          last
          (leds (fader_board f m) color s1 ++ leds (fader_board f m) white s1)
  unfolding switch_leds_by_button stop_transitions
  switch_over true start last s byte late =
      fades_over s.storage.button_colors start last s.led_r s.led_g s.led_b s.led_w byte late
  switch_over false start last s byte late =
      fades_over no_color start last s.led_r s.led_g s.led_b s.led_w
        (omega arith, omega arith, omega arith, omega arith) late

  -- Within twice the time of the fade, whatever intervals the faders have.
  pub release_settles_soon :
      (c : Rgbw) (start : ℕ) (us : List ℕ) (s : Kitchen (fader_board f m))
      → IsByteColor s.storage.button_colors
      → Settled (laws doc m rom) c s
      → Times start (start + clock_mod) us
      → start + 2 * fade_time_ms ≤ last_of start us
      → let s1 = short_release_handler (fader_board f m) (record s { clock = reading start }) in
        (on : Bool) × Settled
          (laws doc m rom)
          (if on then s.storage.button_colors else no_color)
          (passes_at (fader_board f m) (map reading us) s1)
        × ((on ≡ false) ↔ (c ≡ s.storage.button_colors))
  unfolding short_release_handler is_stored_equal led_values
  release_settles_soon c start us s byte settled times late =
      let on = not (is_stored_equal (fader_board f m) button (led_values (fader_board f m) s) s) in
      release_settles c start us s byte settled times
        (switch_over on start (last_of start us) s byte late)
