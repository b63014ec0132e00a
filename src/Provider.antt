-- ===== src/Provider.antt =====
-- model/provider_runtime.go and the provider rows of model/provider.go.
pub mod Rows
pub mod Runtime
pub mod ProxyConfig
pub mod Client
pub mod Cached
pub mod Health
pub mod Marking
pub mod Filters
pub mod Eligible
pub mod Cooldown
