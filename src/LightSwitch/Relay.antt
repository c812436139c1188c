-- ===== src/LightSwitch/Relay.antt =====
-- sketches/LightSwitchAC/Relay.cpp: a relay that a button toggles.
use smarthouse_arduino.Base.{ℕ, Bool, false, not, List, [], ◌∷◌}
use smarthouse_arduino.NewButton.{NewButton, register, process, short_release}

-- The callback that a relay registers with itself as the user data.
pub data RelayCallback : Type 0 where
  on_button_short_release : RelayCallback

-- `output` is the level of the output pin.
pub record Relay : Type 0 where
  pub status : Bool
  pub button : NewButton RelayCallback
  pub output_pin : ℕ
  pub output : Bool

-- The constructor; a pin is low when it becomes an output.
unfoldable pub new_relay : NewButton RelayCallback → ℕ → Relay
new_relay button output_pin = record {
  status = false;
  button = register short_release on_button_short_release button;
  output_pin = output_pin;
  output = false;
}

unfoldable pub set_status : Bool → Relay → Relay
set_status on r = record r { status = on; output = on }

unfoldable pub toggle_status : Relay → Relay
unfolding set_status
toggle_status r =
    let flipped = record r { status = not r.status } in set_status flipped.status flipped

unfoldable pub relay_calls : List RelayCallback → Relay → Relay
relay_calls [] r = r
relay_calls (on_button_short_release ∷ fs) r = relay_calls fs (toggle_status r)

-- `Relay::process`, with the input of a poll of its button.
unfoldable pub relay_process : Bool → ℕ → ℕ → Relay → Relay
relay_process level now later r =
    let (button', calls) = process level now later r.button in
    relay_calls calls (record r { button = button' })
