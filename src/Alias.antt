-- ===== src/Alias.antt =====
-- common/model_alias.go and model/provider_alias_mapping.go: names of models and their aliases.
pub mod Names
pub mod Lookup
pub mod Folds
pub mod Resolved
