-- ===== src/LedFader/Implements.antt =====
-- The faders as the LEDs of the Kitchen sketch: an implementation of its interface.
use smarthouse_arduino.Base.{ℕ, ◌%◌, ◌^◌, ◌<◌, ◌≡◌, false, arith, pos}
use smarthouse_arduino.Kitchen.Board.{Board, IsBoard}
use smarthouse_arduino.Kitchen.Types.{Storage, IsByteStorage}
use smarthouse_arduino.LedFader.{
  Float, IsFloat, Fader, new_fader, set_value, stop_fade, get_value, fade, update, is_fading,
  IsReady, destination,
}
use smarthouse_arduino.NewButton.{elapsed}

-- `eeprom.get` and `eeprom.put` at address 0.
pub record Rom : Type 1 where
  pub Cells : Type 0
  pub get : Cells → Storage
  pub put : Storage → Cells → Cells

pub record IsRom (m : Rom) : Type 0 where
  pub get-put : (s : Storage) (r : m.Cells) → IsByteStorage s → m.get (m.put s r) ≡ s
  pub get_bytes : (r : m.Cells) → IsByteStorage (m.get r)

module _ (f : Float) where
  pub set_value-IsReady : (v : ℕ) (l : Fader f) → IsReady f l → IsReady f (set_value f (pos v) l)
  unfolding set_value
  set_value-IsReady v l i = ground (arith, i.pinned, i.bounded, i.color_byte, i.target_byte)

  pub fade-IsReady :
      (now v time : ℕ) (l : Fader f) → time < 2 ^ 32 → IsReady f l → IsReady f (fade f now v time l)
  unfolding fade set_value stop_fade
  fade-IsReady now v time l h i = ground (arith, i.pinned, i.bounded, i.color_byte, i.target_byte)

  pub update-IsReady :
      (now later : ℕ) (l : Fader f) → IsReady f l → IsReady f (update f now later l).0
  unfolding update set_value stop_fade
  update-IsReady now later l i = ground (arith, i.pinned, i.bounded, i.color_byte, i.target_byte)

  abbrev pub Led : Type 0
  Led = (l : Fader f) × IsReady f l

  -- A LED on a pin.
  abbrev pub led : (pin : ℕ) → 0 < pin → Led
  unfolding new_fader
  led pin h = (
    new_fader f pin,
    record {
      pinned = h;
      bounded = omega arith;
      color_byte = omega arith;
      target_byte = omega arith;
    },
  )

-- The time is an `unsigned long`, and both readings of millis() in `update` are those of the pass.
abbrev pub fader_board : Float → Rom → Board
fader_board f m = record {
  Led = Led f;
  set_value = λ v l. (set_value f (pos v) l.0, set_value-IsReady f v l.0 l.1);
  fade = λ now v time l. (
    fade f now v (time % 2 ^ 32) l.0,
    fade-IsReady f now v (time % 2 ^ 32) l.0 (omega arith) l.1,
  );
  update = λ now l. ((update f now now l.0).0, update-IsReady f now now l.0 l.1);
  get_value = λ l. get_value f l.0;
  Rom = m.Cells;
  rom_get = m.get;
  rom_put = m.put;
}

module _ {f : Float} (doc : IsFloat f) where
  pub destination-fade :
      (now v time : ℕ) (l : Fader f) → 0 < l.pin → v < 256 → destination f (fade f now v time l) ≡ v
  unfolding fade set_value stop_fade
  destination-fade now v time l p h = ground arith

  pub destination-update :
      (now later : ℕ) (l : Fader f)
      → IsReady f l
      → destination f (update f now later l).0 ≡ destination f l
  unfolding update set_value stop_fade
  destination-update now later l i = ground (
    arith,
    i.pinned,
    i.bounded,
    i.color_byte,
    i.target_byte,
    doc.full (elapsed now l.last_step_time) l.duration,
  )

  pub rests : (l : Fader f) → IsReady f l → is_fading f l ≡ false → get_value f l ≡ destination f l
  unfolding is_fading get_value
  rests l i h = ground (arith, i.pinned, h)

  pub is_fading-update :
      (now later : ℕ) (l : Fader f)
      → is_fading f l ≡ false
      → is_fading f (update f now later l).0 ≡ false
  unfolding is_fading update
  is_fading-update now later l h = ground (arith, h)

  -- The proofs of the interface's laws.
  unfoldable pub laws : (m : Rom) → IsRom m → IsBoard (fader_board f m)
  laws m rom = record {
    destination = λ l. destination f l.0;
    is_fading = λ l. is_fading f l.0;
    rom_get-rom_put = rom.get-put;
    rom_bytes = rom.get_bytes;
    destination-fade = λ now v time l h. destination-fade now v (time % 2 ^ 32) l.0 l.1.pinned h;
    destination-update = λ now l. destination-update now now l.0 l.1;
    is_fading-update = λ now l h. is_fading-update now now l.0 h;
    rests = λ l h. rests l.0 l.1 h;
  }

  -- With the documented arithmetic of `float` and an EEPROM that behaves as documented, the faders do what
  -- the Kitchen sketch relies on: a fade comes to rest at its level and
  -- updates do not change that, nor where a LED rests.
  pub fader_board-IsBoard : (m : Rom) → IsRom m → IsBoard (fader_board f m)
  fader_board-IsBoard m rom = laws m rom
