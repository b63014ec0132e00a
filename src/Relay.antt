-- ===== src/Relay.antt =====
-- controller/relay.go: the handler of a relayed call.
pub mod Handler
pub mod Attempts
pub mod Answers
pub mod Single
