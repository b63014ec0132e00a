-- ===== src/Tests.antt =====
-- Concrete values, and the theorems of the library applied to them.
mod Samples
mod Tokens
mod Providers
mod Routes
mod Alerts
mod Calls
mod Upstream
mod Tables
