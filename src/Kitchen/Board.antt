-- ===== src/Kitchen/Board.antt =====
-- What the Kitchen sketch calls and does not implement: LED faders (libraries/LEDFader) and the EEPROM.
use smarthouse_arduino.Base.{ℕ, ◌≡◌, ◌<◌, Bool, false}
use smarthouse_arduino.Kitchen.Types.{Storage, IsByteStorage}

-- `fade`, `update` take the reading of millis() at the call. `rom_get`, `rom_put` are `eeprom.get` and
-- `eeprom.put` at address 0.
pub record Board : Type 1 where
  pub Led : Type 0
  pub set_value : ℕ → Led → Led
  pub fade : ℕ → ℕ → ℕ → Led → Led
  pub update : ℕ → Led → Led
  pub get_value : Led → ℕ
  pub Rom : Type 0
  pub rom_get : Rom → Storage
  pub rom_put : Storage → Rom → Rom

-- The documented behaviour that the theorems rely on. `destination` is the level at which a LED rests
-- once it no longer fades.
pub record IsBoard (b : Board) : Type 0 where
  pub destination : b.Led → ℕ
  pub is_fading : b.Led → Bool
  pub rom_get-rom_put : (s : Storage) (r : b.Rom) → IsByteStorage s → b.rom_get (b.rom_put s r) ≡ s
  pub rom_bytes : (r : b.Rom) → IsByteStorage (b.rom_get r)
  pub destination-fade :
      (now v time : ℕ) (l : b.Led) → v < 256 → destination (b.fade now v time l) ≡ v
  pub destination-update : (now : ℕ) (l : b.Led) → destination (b.update now l) ≡ destination l
  pub is_fading-update :
      (now : ℕ) (l : b.Led) → is_fading l ≡ false → is_fading (b.update now l) ≡ false
  pub rests : (l : b.Led) → is_fading l ≡ false → b.get_value l ≡ destination l
