-- ===== src/Options.antt =====
-- The options that tune the relay, read from the option map.
pub mod Parse
pub mod Tuning
pub mod Ranges
pub mod Reliability
pub mod Validation
