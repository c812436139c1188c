-- ===== src/Kitchen.antt =====
-- The Kitchen sketch (sketches/Kitchen): RGB and white LED strips, a button and a radio node.
pub mod Types
pub mod Parsing
pub mod Board
pub mod State
pub mod Leds
pub mod Store
pub mod Networking
pub mod Sketch
pub mod History
pub mod Invariant
pub mod Synced
pub mod Survival
pub mod Aim
pub mod Turn
pub mod Arrival
pub mod Passes
pub mod Presses
pub mod Outcomes
pub mod Polls
pub mod Loops
pub mod Holding
pub mod Recorder
pub mod Memory
pub mod Status
pub mod Honest
pub mod Remote
pub mod Limits
