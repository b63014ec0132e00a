-- ===== src/Sync.antt =====
-- service/sync.go: what a synchronisation derives from the rows of a provider.
pub mod Routes
pub mod Derived
