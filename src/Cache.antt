-- ===== src/Cache.antt =====
-- model/model_route_cache.go: the caches of the router.
pub mod Static
pub mod Metrics
pub mod Fresh
pub mod Bounded
