-- ===== src/Tests.antt =====
-- The theorems at concrete inputs, and runs of the models.
pub mod Samples
mod ParsingTests
mod ButtonTests
mod KitchenTests
pub mod LampSamples
mod LightSwitchTests
mod LampTests
mod InterruptTests
mod MotionTests
mod LoggingTests
pub mod FaderSamples
mod FaderTests
