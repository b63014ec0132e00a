-- ===== src/Verification.antt =====
-- common/verification.go: verification codes.
pub mod Codes
pub mod Lifetime
