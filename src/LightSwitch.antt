-- ===== src/LightSwitch.antt =====
-- The LightSwitchAC sketch (sketches/LightSwitchAC): a dimmed lamp with a button, and two relays.
pub mod Relay
pub mod Node
pub mod Sketch
pub mod Firing
pub mod Fading
pub mod Range
pub mod Saved
pub mod Toggling
pub mod Passes
pub mod Tapping
pub mod Holding
pub mod Switching
pub mod Actions
pub mod Parts
pub mod Interrupts
pub mod Executions
pub mod Apart
pub mod Undisturbed
pub mod Levels
