-- ===== src/NewButton.antt =====
-- libraries/NewButton: a polled push button with short and long presses. `process` returns the calls of
-- callbacks that it makes, in order; a callback of type `A` is a function with its user data. The
-- sketches' callbacks do not touch the button itself.
pub mod Hold
pub mod Calls
pub mod Press
pub mod Lost
pub mod Gestures
use smarthouse_arduino.Base.{
  ℕ, ◌+◌, ◌-◌, ◌%◌, ◌^◌, Bool, true, false, not, ◌&&◌, Option, none, some, List, [], ◌∷◌, ◌++◌, ltb,
  leb, if◌then◌else◌,
}

-- `enum class Status`
pub data Status : Type 0 where
  idle short long : Status

pub data EventType : Type 0 where
  short_press long_press short_release long_release : EventType

-- `m_callbacks`, an array with one slot for each event; an empty slot has a null function pointer.
pub record Callbacks {ℓ} (A : Type ℓ) : Type ℓ where
  pub on_short_press : Option A
  pub on_long_press : Option A
  pub on_short_release : Option A
  pub on_long_release : Option A

-- The default arguments of the constructor.
abbrev pub default_short_press_time : ℕ
default_short_press_time = 40

abbrev pub default_long_press_time : ℕ
default_long_press_time = 2000

-- `unsigned long` is 32 bits wide and `unsigned int` 16 on the AVR.
pub record NewButton {ℓ} (A : Type ℓ) : Type ℓ where
  pub pin : ℕ
  pub short_press_time : ℕ
  pub long_press_time : ℕ
  pub prev_status : Bool
  pub pressed_time : ℕ
  pub prev_press_status : Status
  pub press_status : Status
  pub callbacks : Callbacks A

-- `a - b` of two `unsigned long`.
abbrev pub elapsed : ℕ → ℕ → ℕ
elapsed a b = (a + 2 ^ 32 - b) % 2 ^ 32

abbrev pub same : Status → Status → Bool
same idle idle = true
same short short = true
same long long = true
same _ _ = false

module _ {ℓ} {A : Type ℓ} where
  abbrev pub no_callbacks : Callbacks A
  no_callbacks = record {
    on_short_press = none;
    on_long_press = none;
    on_short_release = none;
    on_long_release = none;
  }

  -- The constructor.
  unfoldable pub new : ℕ → ℕ → ℕ → NewButton A
  new pin short_time long_time = record {
    pin = pin;
    short_press_time = short_time;
    long_press_time = long_time;
    prev_status = false;
    pressed_time = 0;
    prev_press_status = idle;
    press_status = idle;
    callbacks = no_callbacks;
  }

  -- `on_short_press` and the other three registrations.
  unfoldable pub register : EventType → A → NewButton A → NewButton A
  register short_press f b = record b { callbacks = record b.callbacks { on_short_press = some f } }
  register long_press f b = record b { callbacks = record b.callbacks { on_long_press = some f } }
  register short_release f b = record b {
    callbacks = record b.callbacks { on_short_release = some f };
  }
  register long_release f b = record b {
    callbacks = record b.callbacks { on_long_release = some f };
  }

  abbrev pub slot : EventType → Callbacks A → Option A
  slot short_press c = c.on_short_press
  slot long_press c = c.on_long_press
  slot short_release c = c.on_short_release
  slot long_release c = c.on_long_release

  -- `if (m_callbacks[e].cb) m_callbacks[e].cb(…)`
  abbrev pub fire : EventType → Callbacks A → List A
  fire e c = elim (slot e c) [ none ↦ [] | some f ↦ f ∷ [] ]

  -- The calls on a release, by the press status.
  abbrev pub on_release : Status → Callbacks A → List A
  on_release idle c = []
  on_release short c = fire short_release c
  on_release long c = fire long_release c

  -- The first part of `process`: an edge of the pin; `now` is the reading of millis() on a press.
  unfoldable pub edge : Bool → ℕ → NewButton A → NewButton A × List A
  edge status now b =
      if status && not b.prev_status
      then (record b { pressed_time = now }, [])
      else if not status && b.prev_status
      then (
        record b { pressed_time = 0; press_status = idle },
        on_release b.press_status b.callbacks,
      )
      else (b, [])

  -- The second part: how long the button has been held by the second reading of millis().
  unfoldable pub hold : ℕ → NewButton A → NewButton A
  hold now b =
      if ltb 0 b.pressed_time
      then (if leb b.long_press_time (elapsed now b.pressed_time)
          then record b { press_status = long }
          else if leb b.short_press_time (elapsed now b.pressed_time)
          then record b { press_status = short }
          else b)
      else b

  -- The third part: the calls on a change of the press status.
  abbrev pub on_change : Status → Status → Callbacks A → List A
  on_change before idle c = []
  on_change before short c = if same before short then [] else fire short_press c
  on_change before long c = if same before long then [] else fire long_press c

  -- `status` is the pin's level; `now` and `later` are the two readings of millis().
  unfoldable pub process : Bool → ℕ → ℕ → NewButton A → NewButton A × List A
  unfolding edge hold
  process status now later b =
      let (edged, released) = edge status now b in
      let held = hold later edged in
      (
        record held { prev_status = status; prev_press_status = held.press_status },
        released ++ on_change held.prev_press_status held.press_status held.callbacks,
      )
