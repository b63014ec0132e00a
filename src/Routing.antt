-- ===== src/Routing.antt =====
-- model/model_route.go: the choice of upstream routes for a model.
pub mod Rows
pub mod Balance
pub mod Score
pub mod Suppression
pub mod Shuffle
pub mod Metrics
pub mod Plan
pub mod Multiplier
pub mod Cooldown
pub mod Shuffled
pub mod Groups
pub mod Sound
pub mod Division
pub mod Complete
pub mod Rebuild
pub mod Rebuilt
