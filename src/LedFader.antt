-- ===== src/LedFader.antt =====
-- libraries/LEDFader/LEDFader.cpp: a LED that fades to a level in small steps.
pub mod Curve
pub mod Steps
pub mod Fade
pub mod Completion
pub mod Implements
pub mod Turning
pub mod Resting
pub mod Settling
pub mod Pressing
pub mod Wiring
pub mod Commanded
pub mod Examples
use smarthouse_arduino.Base.{
  ℕ, ◌+◌, ◌-◌, ◌%◌, ◌^◌, ◌≤◌, ◌<◌, ◌≡◌, Bool, true, false, not, Option, none, some, ltb, leb, ◌==◌,
  if◌then◌else◌, ℤ, pos, negsuc, ◌+ℤ◌, sub_ℕ, pos_part, neg_part,
}
use smarthouse_arduino.NewButton.{elapsed}

-- What the library does with a `float`: `of_long` converts an `unsigned long`, `share` is
-- `round(color_diff * percent)` as an `int`, `round_long` and `round_byte` are `round`, `is_full` is
-- `>= 1`, and `nought` and `hundred` are the constants 0 and 100.
pub record Float : Type 1 where
  pub F : Type 0
  pub nought : F
  pub hundred : F
  pub of_long : ℕ → F
  pub divided : F → F → F
  pub plus : F → F → F
  pub is_full : F → Bool
  pub share : ℤ → F → ℤ
  pub round_long : F → ℕ
  pub round_byte : F → ℕ

-- IEEE 754: a quotient of at least 1 is not rounded below 1; a number times a fraction below 1, rounded
-- to an integer, lies between 0 and the number; a number below 2 ^ 24 is exact, and a quotient of it by
-- a whole number is rounded to at most itself.
pub record IsFloat (f : Float) : Type 0 where
  pub full : (t d : ℕ) → 0 < d → d ≤ t → f.is_full (f.divided (f.of_long t) (f.of_long d)) ≡ true
  pub share_up :
      (n t d : ℕ)
      → f.is_full (f.divided (f.of_long t) (f.of_long d)) ≡ false
      → (neg_part (f.share (pos n) (f.divided (f.of_long t) (f.of_long d))) ≡ 0)
        × (pos_part (f.share (pos n) (f.divided (f.of_long t) (f.of_long d))) ≤ n)
  pub share_down :
      (n t d : ℕ)
      → f.is_full (f.divided (f.of_long t) (f.of_long d)) ≡ false
      → (pos_part (f.share (negsuc n) (f.divided (f.of_long t) (f.of_long d))) ≡ 0)
        × (neg_part (f.share (negsuc n) (f.divided (f.of_long t) (f.of_long d))) ≤ n + 1)
  pub round_le :
      (a b : ℕ) → a < 2 ^ 24 → 0 < b → f.round_long (f.divided (f.of_long a) (f.of_long b)) ≤ a

abbrev pub min_interval : ℕ
min_interval = 20

-- `constrain(value, 0, 255)`
abbrev pub constrained : ℤ → ℕ
constrained (pos n) = if ltb 255 n then 255 else n
constrained (negsuc n) = 0

-- `abs(a - b)`
abbrev pub distance : ℕ → ℕ → ℕ
distance a b = if leb b a then a - b else b - a

abbrev pub curved : Option (ℕ → ℕ) → ℕ → ℕ
curved none c = c
curved (some g) c = g c

module _ (f : Float) where
  -- `output` is the last write to a pin: `analogWrite(pin, level)`.
  pub record Fader : Type 0 where
    pub pin : ℕ
    pub last_step_time : ℕ
    pub interval : ℕ
    pub color : ℕ
    pub to_color : ℕ
    pub duration : ℕ
    pub percent_done : f.F
    pub curve : Option (ℕ → ℕ)
    pub output : Option (ℕ × ℕ)

  unfoldable pub new_fader : ℕ → Fader
  new_fader pwm_pin = record {
    pin = pwm_pin;
    last_step_time = 0;
    interval = 0;
    color = 0;
    to_color = 0;
    duration = 0;
    percent_done = f.nought;
    curve = none;
    output = none;
  }

  unfoldable pub set_pin : ℕ → Fader → Fader
  set_pin pwm_pin l = record l { pin = pwm_pin }

  unfoldable pub get_pin : Fader → ℕ
  get_pin l = l.pin

  unfoldable pub set_value : ℤ → Fader → Fader
  set_value value l =
      let c = constrained value in
      if l.pin == 0 then l else record l { color = c; output = some (l.pin, curved l.curve c) }

  unfoldable pub get_value : Fader → ℕ
  get_value l = l.color

  unfoldable pub get_target_value : Fader → ℕ
  get_target_value l = l.to_color

  unfoldable pub set_curve : Option (ℕ → ℕ) → Fader → Fader
  set_curve c l = record l { curve = c }

  unfoldable pub get_curve : Fader → Option (ℕ → ℕ)
  get_curve l = l.curve

  unfoldable pub stop_fade : Fader → Fader
  stop_fade l = record l { percent_done = f.hundred; duration = 0 }

  -- `now` is the reading of millis().
  unfoldable pub fade : ℕ → ℕ → ℕ → Fader → Fader
  fade now value time l =
      let stopped : Fader = record (stop_fade l) { percent_done = f.nought } in
      let to = constrained (pos value) in
      let steps = f.round_long (f.divided (f.of_long time) (f.of_long (distance l.color to))) in
      let started : Fader = record stopped {
        duration = time;
        to_color = to;
        interval = if ltb steps min_interval then min_interval else steps;
        last_step_time = now;
      } in
      if l.pin == 0
      then stopped
      else if value == l.color
      then stopped
      else if leb time min_interval
      then set_value (pos value) stopped
      else started

  unfoldable pub is_fading : Fader → Bool
  is_fading l = if l.pin == 0 then false else ltb 0 l.duration

  unfoldable pub get_progress : Fader → ℕ
  get_progress l = f.round_byte l.percent_done

  -- `now` and `later` are the two readings of millis(); the result says whether the fade goes on.
  unfoldable pub update : ℕ → ℕ → Fader → Fader × Bool
  update now later l =
      let time_diff = elapsed now l.last_step_time in
      let percent = f.divided (f.of_long time_diff) (f.of_long l.duration) in
      let tallied : Fader = record l { percent_done = f.plus l.percent_done percent } in
      let increment = f.share (sub_ℕ l.to_color l.color) percent in
      let moved = set_value (pos l.color +ℤ increment) tallied in
      if l.pin == 0
      then (l, false)
      else if l.duration == 0
      then (l, false)
      else if ltb time_diff l.interval
      then (l, true)
      else if f.is_full percent
      then (set_value (pos l.to_color) (stop_fade tallied), false)
      else (
        record moved {
          duration = (l.duration + 2 ^ 32 - time_diff) % 2 ^ 32;
          last_step_time = later;
        },
        true,
      )

  -- An `int` converted to `unsigned long`.
  abbrev pub as_long : ℤ → ℕ
  as_long (pos n) = n
  as_long (negsuc n) = 2 ^ 32 - 1 - n

  unfoldable pub slower : ℕ → ℤ → Fader → Fader
  slower now by l =
      let longer = (l.duration + as_long by) % 2 ^ 32 in
      record (fade now l.to_color longer (record l { duration = longer })) {
        percent_done = l.percent_done;
      }

  unfoldable pub faster : ℕ → ℤ → Fader → Fader
  faster now by l =
      let shorter = (l.duration + 2 ^ 32 - as_long by) % 2 ^ 32 in
      let ended =
        if leb l.duration (as_long by)
        then set_value (pos l.to_color) (stop_fade l)
        else fade now l.to_color shorter (record l { duration = shorter }) in
      record ended { percent_done = l.percent_done }

  -- A fader with a pin, whose fields have their C types.
  pub record IsReady (l : Fader) : Type 0 where
    pub pinned : 0 < l.pin
    pub bounded : l.duration < 2 ^ 32
    pub color_byte : l.color < 256
    pub target_byte : l.to_color < 256

  -- The level at which the LED rests once its fade is over.
  abbrev pub destination : Fader → ℕ
  destination l = if l.duration == 0 then l.color else l.to_color
