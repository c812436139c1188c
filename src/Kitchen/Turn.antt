-- ===== src/Kitchen/Turn.antt =====
-- Running transitions over messages and passes of the main loop.
use smarthouse_arduino.Base.{ℕ, ◌≡◌, ◌⊎◌, refl, inl, inr, true, some, List, arith}
use smarthouse_arduino.Kitchen.Aim.{
  IsAimed, stopped-IsAimed, fade_from-AimsAt, part-IsAimed, clock-IsAimed, loop-IsAimed,
}
use smarthouse_arduino.Kitchen.Board.{Board, IsBoard}
use smarthouse_arduino.Kitchen.History.{Event, run}
use smarthouse_arduino.Kitchen.Invariant.{IsKept, history-IsKept}
use smarthouse_arduino.Kitchen.Leds.{
  leds_color_fade, leds_white_fade, leds_set_transition, leds_start_transition, leds_setup,
  leds_fade_from,
}
use smarthouse_arduino.Kitchen.Networking.{
  Incoming, on_message_set_limit, on_message_set_transition, on_message_light,
}
use smarthouse_arduino.Kitchen.Parsing.{Stdlib}
use smarthouse_arduino.Kitchen.Sketch.{Callback, setup}
use smarthouse_arduino.Kitchen.State.{Kitchen, network_send_color_status, network_send_white_status}
use smarthouse_arduino.Kitchen.Types.{
  Rgbw, LedType, color, white, SwitchingSource, external, button, Transition, IsByteColor,
}
use smarthouse_arduino.Kitchen.Store.{
  save_color_leds, save_white_leds, restore_color_leds, restore_white_leds,
}
use smarthouse_arduino.NewButton.{NewButton}

module _ {b : Board} (doc : IsBoard b) where
  setup-IsAimed : (t : LedType) (s : Kitchen b) → IsAimed doc t (setup b s)
  unfolding setup leds_setup
  setup-IsAimed color s = stopped-IsAimed doc color (setup b s) refl
  setup-IsAimed white s = stopped-IsAimed doc white (setup b s) refl

  -- A handler keeps one kind of LED, or stops its transition.
  abbrev Stops : LedType → Kitchen b → Kitchen b → Type 0
  Stops color s s' =
      s'.trans_color.running ≡ true
      → (s'.led_r ≡ s.led_r)
        × (s'.led_g ≡ s.led_g)
        × (s'.led_b ≡ s.led_b)
        × (s'.trans_color ≡ s.trans_color)
  Stops white s s' =
      s'.trans_white.running ≡ true → (s'.led_w ≡ s.led_w) × (s'.trans_white ≡ s.trans_white)

  Stops-IsAimed :
      (t : LedType) (s s' : Kitchen b) → Stops t s s' → IsAimed doc t s → IsAimed doc t s'
  Stops-IsAimed color s s' k i = ground (arith, k, i.aims, i.bytes)
  Stops-IsAimed white s s' k i = ground (arith, k, i.aims, i.bytes)

  set_limit-Stops :
      (t : LedType) (sensor : ℕ) (c : Rgbw) (source : SwitchingSource) (s : Kitchen b)
      → Stops t s (on_message_set_limit b sensor c source s)
  unfolding on_message_set_limit leds_start_transition leds_color_fade leds_white_fade
      save_color_leds save_white_leds network_send_color_status network_send_white_status
  set_limit-Stops color sensor c external s = λ h. ground arith
  set_limit-Stops color sensor c button s = λ h. ground arith
  set_limit-Stops white sensor c external s = λ h. ground arith
  set_limit-Stops white sensor c button s = λ h. ground arith

  light-Stops : (t : LedType) (m : Incoming) (s : Kitchen b) → Stops t s (on_message_light b m s)
  unfolding on_message_light leds_start_transition leds_color_fade leds_white_fade
      restore_color_leds restore_white_leds
  light-Stops color m s = λ h. ground arith
  light-Stops white m s = λ h. ground arith

  start-IsAimed :
      (t : LedType) (x : Transition) (s : Kitchen b)
      → IsByteColor x.start
      → IsByteColor x.stop
      → IsAimed doc t (leds_start_transition b t true (leds_set_transition b t x s))
  unfolding leds_start_transition leds_set_transition leds_fade_from
  start-IsAimed color x s h h' = record {
    aims = λ r. fade_from-AimsAt doc color x.start x.stop x.time s h';
    bytes = λ r. (h, h');
  }
  start-IsAimed white x s h h' = record {
    aims = λ r. fade_from-AimsAt doc white x.start x.stop x.time s h';
    bytes = λ r. (h, h');
  }

  set_transition-cases :
      (sensor : ℕ) (x : Transition) (s : Kitchen b)
      → let s' = on_message_set_transition b sensor x s in
        (s'
          ≡ network_send_color_status b true
              (leds_start_transition b color true (leds_set_transition b color x s)))
        ⊎ ((s'
              ≡ network_send_white_status b true
                  (leds_start_transition b white true (leds_set_transition b white x s)))
            ⊎ (s' ≡ s))
  unfolding on_message_set_transition
  set_transition-cases sensor x s = ground arith

  set_transition-IsAimed :
      (t : LedType) (sensor : ℕ) (x : Transition) (s : Kitchen b)
      → IsByteColor x.start
      → IsByteColor x.stop
      → IsAimed doc t s
      → IsAimed doc t (on_message_set_transition b sensor x s)
  unfolding leds_start_transition leds_set_transition leds_fade_from network_send_color_status
      network_send_white_status
  set_transition-IsAimed color sensor x s h h' i = elim (set_transition-cases sensor x s) [
    | inl e ↦ rw e (part-IsAimed doc color _ _ refl (start-IsAimed color x s h h'))
    | inr (inl e) ↦ rw e (part-IsAimed doc color s _ refl i)
    | inr (inr e) ↦ rw e i
  ]
  set_transition-IsAimed white sensor x s h h' i = elim (set_transition-cases sensor x s) [
    | inl e ↦ rw e (part-IsAimed doc white s _ refl i)
    | inr (inl e) ↦ rw e (part-IsAimed doc white _ _ refl (start-IsAimed white x s h h'))
    | inr (inr e) ↦ rw e i
  ]

  errno-IsAimed :
      (t : LedType) (s : Kitchen b) (e : ℕ)
      → IsAimed doc t s
      → IsAimed doc t (record s { errno = e })
  errno-IsAimed color s e i = part-IsAimed doc color s _ refl i
  errno-IsAimed white s e i = part-IsAimed doc white s _ refl i

  IsAimed-IsKept : (t : LedType) → IsKept b (IsAimed doc t)
  IsAimed-IsKept t = record {
    clock = λ now s i. clock-IsAimed doc t s now i;
    errno = λ e s i. errno-IsAimed t s e i;
    light = λ m s i. Stops-IsAimed t s _ (light-Stops t m s) i;
    set_limit =
        λ sensor c source s h i. Stops-IsAimed t s _ (set_limit-Stops t sensor c source s) i;
    set_transition = set_transition-IsAimed t;
    pass = loop-IsAimed doc t;
  }

  -- Over a board that behaves as documented, after any history from set-up that the parser survives, a
  -- running transition of either kind of LED has byte colours, and the LEDs are set to come to rest at
  -- its stop colour, or at its start colour if its direction is backward.
  pub transition_aims :
      (c : Stdlib) (es : List Event) (s : Kitchen b) (btn btn' : NewButton Callback)
      (s' : Kitchen b) (t : LedType)
      → run b c es (btn, setup b s) ≡ some (btn', s')
      → IsAimed doc t s'
  transition_aims c es s btn btn' s' t h =
      history-IsKept b (IsAimed doc t) (IsAimed-IsKept t) c es btn btn' (setup b s) s'
        (setup-IsAimed t s) h
