-- ===== src/Kitchen/Honest.antt =====
-- What the controller knows of the Kitchen LEDs after any history.
use smarthouse_arduino.Base.{ℕ, ◌≡◌, refl, ap, sym, ◌∙◌, inl, inr, Bool, some, List, arith}
use smarthouse_arduino.Kitchen.Aim.{process_one-cases, process_other-part, other}
use smarthouse_arduino.Kitchen.Board.{Board, IsBoard}
use smarthouse_arduino.Kitchen.History.{Event, run}
use smarthouse_arduino.Kitchen.Invariant.{IsKept, history-IsKept}
use smarthouse_arduino.Kitchen.Leds.{
  leds_fade_from, led_process_one, led_process_loop, leds_process, leds_update,
}
use smarthouse_arduino.Kitchen.Parsing.{Stdlib}
use smarthouse_arduino.Kitchen.Remote.{sensor_of}
use smarthouse_arduino.Kitchen.Sketch.{Callback, setup, call_all, loop}
use smarthouse_arduino.Kitchen.State.{Kitchen}
use smarthouse_arduino.Kitchen.Types.{LedType, color, white}
use smarthouse_arduino.NewButton.{NewButton, process}
use smarthouse_arduino.Kitchen.Status.{
  newest, status, IsDark, IsHonest, kept-IsHonest, setup-IsHonest, set_limit-IsHonest,
  set_transition-IsHonest, light-IsHonest, call_all-IsHonest,
}

module _ {b : Board} (doc : IsBoard b) where
  errno-IsHonest :
      (t : LedType) (s : Kitchen b) (e : ℕ)
      → IsHonest doc t s
      → IsHonest doc t (record s { errno = e })
  errno-IsHonest color s e i = kept-IsHonest doc color s _ refl refl i
  errno-IsHonest white s e i = kept-IsHonest doc white s _ refl refl i

  update-IsHonest :
      (t : LedType) (s : Kitchen b) → IsHonest doc t s → IsHonest doc t (leds_update b s)
  unfolding leds_update
  update-IsHonest color s i = record {
    off = λ r.
        let ((x, y, z), stopped) = i.off r in
        (
          (
            doc.destination-update s.clock s.led_r ∙ x,
            doc.destination-update s.clock s.led_g ∙ y,
            doc.destination-update s.clock s.led_b ∙ z,
          ),
          stopped,
        );
  }
  update-IsHonest white s i = record {
    off = λ r. let (x, stopped) = i.off r in (doc.destination-update s.clock s.led_w ∙ x, stopped);
  }

  -- A pass turns a running transition at most, and sends nothing.
  one_sent : (t : LedType) (s : Kitchen b) → (led_process_one b t s).sent ≡ s.sent
  unfolding led_process_one leds_fade_from
  one_sent color s = ground arith
  one_sent white s = ground arith

  process_one-IsHonest :
      (t : LedType) (s : Kitchen b) → IsHonest doc t s → IsHonest doc t (led_process_one b t s)
  process_one-IsHonest t s i = elim (process_one-cases doc t s) [
    | inl (turns, r) ↦ record {
      off = λ h.
          let dark = i.off (ap (newest (sensor_of t)) (sym (one_sent t s)) ∙ h) in cc (r, dark.1);
    }
    | inr stays ↦ rw stays i
  ]

  other_one-IsHonest :
      (t : LedType) (s : Kitchen b)
      → IsHonest doc t s
      → IsHonest doc t (led_process_one b (other doc t) s)
  other_one-IsHonest t s i =
      kept-IsHonest doc t s (led_process_one b (other doc t) s) (process_other-part doc t s)
        (ap (newest (sensor_of t)) (one_sent (other doc t) s)) i

  process-IsHonest :
      (t : LedType) (s : Kitchen b) → IsHonest doc t s → IsHonest doc t (leds_process b s)
  unfolding leds_process led_process_loop other
  process-IsHonest color s i =
      other_one-IsHonest color _ (process_one-IsHonest color _ (update-IsHonest color s i))
  process-IsHonest white s i =
      process_one-IsHonest white _ (other_one-IsHonest white _ (update-IsHonest white s i))

  clock-IsHonest :
      (t : LedType) (s : Kitchen b) (now : ℕ)
      → IsHonest doc t s
      → IsHonest doc t (record s { clock = now })
  clock-IsHonest color s now i = kept-IsHonest doc color s _ refl refl i
  clock-IsHonest white s now i = kept-IsHonest doc white s _ refl refl i

  loop-IsHonest :
      (t : LedType) (level : Bool) (now later : ℕ) (btn : NewButton Callback) (s : Kitchen b)
      → IsHonest doc t s
      → IsHonest doc t (loop b level now later (btn, s)).1
  unfolding loop
  loop-IsHonest t level now later btn s i =
      let calls = (process level now later btn).1 in
      let s' : Kitchen b = record s { clock = later } in
      process-IsHonest t (call_all b calls s')
        (call_all-IsHonest doc t calls s' (clock-IsHonest t s later i))

  IsHonest-IsKept : (t : LedType) → IsKept b (IsHonest doc t)
  IsHonest-IsKept t = record {
    clock = λ now s i. clock-IsHonest t s now i;
    errno = λ e s i. errno-IsHonest t s e i;
    light = light-IsHonest doc t;
    set_limit = λ sensor c source s h i. set_limit-IsHonest doc t sensor c source s i;
    set_transition = λ sensor x s h h' i. set_transition-IsHonest doc t sensor x s i;
    pass = loop-IsHonest t;
  }

  -- Over a board that behaves as documented, after any history from set-up that the parser survives: if
  -- the newest status that the controller got of a kind of LED is off, then no transition of it runs
  -- and it is set to come to rest at black.
  pub off_status_is_true :
      (c : Stdlib) (es : List Event) (s : Kitchen b) (btn btn' : NewButton Callback)
      (s' : Kitchen b) (t : LedType)
      → run b c es (btn, setup b s) ≡ some (btn', s')
      → status doc t s' ≡ some 0
      → IsDark doc t s'
  off_status_is_true c es s btn btn' s' t h =
      (history-IsKept b (IsHonest doc t) (IsHonest-IsKept t) c es btn btn' (setup b s) s'
        (setup-IsHonest doc t s) h).off
