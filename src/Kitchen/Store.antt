-- ===== src/Kitchen/Store.antt =====
-- sketches/Kitchen/Storage.cpp: the stored colours and their copy in the EEPROM.
use smarthouse_arduino.Base.{ℕ, Bool, true, ◌&&◌, ◌==◌, if◌then◌else◌}
use smarthouse_arduino.Kitchen.Board.{Board}
use smarthouse_arduino.Kitchen.State.{Kitchen, network_send_color_status, network_send_white_status}
use smarthouse_arduino.Kitchen.Leds.{fade_time_ms, leds_color_fade, leds_white_fade}
use smarthouse_arduino.Kitchen.Types.{Rgbw, SwitchingSource, external, button, Storage, no_color}

abbrev pub storage_version : ℕ
storage_version = 2

abbrev pub colors : SwitchingSource → Storage → Rgbw
colors external s = s.external_colors
colors button s = s.button_colors

abbrev pub set_colors : SwitchingSource → Rgbw → Storage → Storage
set_colors external c s = record s { external_colors = c }
set_colors button c s = record s { button_colors = c }

abbrev pub full_color : Rgbw
full_color = record { r = 255; g = 255; b = 255; w = 255 }

abbrev pub empty_storage : Storage
empty_storage = record {
  version = storage_version;
  external_colors = no_color;
  button_colors = no_color;
}

-- What `load_storage` makes of the bytes that it read.
unfoldable pub checked : Storage → Storage
checked s = if s.version == storage_version then s else record {
  version = storage_version;
  external_colors = full_color;
  button_colors = full_color;
}

module _ (b : Board) where
  unfoldable pub storage_reset : Kitchen b → Kitchen b
  storage_reset s = record s { storage = empty_storage }

  unfoldable pub load_storage : Kitchen b → Kitchen b
  unfolding checked
  load_storage s = record s { storage = checked (b.rom_get s.rom) }

  unfoldable pub storage_setup : Kitchen b → Kitchen b
  unfolding storage_reset load_storage
  storage_setup s = load_storage (storage_reset s)

  -- Both `save_` functions end by writing the whole storage.
  abbrev pub put_storage : Storage → Kitchen b → Kitchen b
  put_storage x s = record s { storage = x; rom = b.rom_put x s.rom }

  unfoldable pub save_color_leds : SwitchingSource → ℕ → ℕ → ℕ → Kitchen b → Kitchen b
  save_color_leds source r g b' s =
      put_storage
        (set_colors source (record (colors source s.storage) { r = r; g = g; b = b' }) s.storage) s

  unfoldable pub save_white_leds : SwitchingSource → ℕ → Kitchen b → Kitchen b
  save_white_leds source w s =
      put_storage (set_colors source (record (colors source s.storage) { w = w }) s.storage) s

  unfoldable pub restore_color_leds : SwitchingSource → Kitchen b → Kitchen b
  unfolding leds_color_fade network_send_color_status
  restore_color_leds source s =
      let c = colors source s.storage in
      network_send_color_status b true (leds_color_fade b c.r c.g c.b fade_time_ms s)

  unfoldable pub restore_white_leds : SwitchingSource → Kitchen b → Kitchen b
  unfolding leds_white_fade network_send_white_status
  restore_white_leds source s =
      network_send_white_status b true
        (leds_white_fade b (colors source s.storage).w fade_time_ms s)

  unfoldable pub is_stored_equal : SwitchingSource → Rgbw → Kitchen b → Bool
  is_stored_equal source leds s =
      let c = colors source s.storage in
      c.r == leds.r && c.g == leds.g && c.b == leds.b && c.w == leds.w
