-- ===== src/Proxy.antt =====
-- service/proxy.go: what counts as an answer, and the copy of a stream to the client.
pub mod Json
pub mod Output
pub mod Classify
pub mod Usage
pub mod Extract
pub mod Reported
pub mod Found
pub mod Sound
pub mod Exact
pub mod Request
pub mod Private
pub mod Log
pub mod Logged
pub mod Redact
pub mod Redacted
pub mod Upstream
pub mod CutOff
pub mod Single
pub mod Stream
pub mod Body
pub mod Delivered
pub mod Valid
pub mod Committed
