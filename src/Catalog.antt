-- ===== src/Catalog.antt =====
-- model/model_catalog.go and model/model_route_cache.go: the catalog of models and the routes of a
-- requested model.
pub mod Buckets
pub mod Lookup
pub mod Build
pub mod Snapshot
pub mod Membership
pub mod Ordered
pub mod Sorted
pub mod Candidates
pub mod Requested
