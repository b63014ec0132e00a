-- ===== src/Token.antt =====
-- model/provider_token.go: the upstream tokens of a provider and the state of their keys.
pub mod Rows
pub mod Keys
pub mod Marks
pub mod Backfill
pub mod Store
pub mod Stored
