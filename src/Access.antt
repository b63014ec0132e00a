-- ===== src/Access.antt =====
-- model/aggregated_token.go, middleware/agg_token_auth.go and middleware/auth.go: who may call.
pub mod Rows
pub mod Tokens
pub mod Middleware
pub mod Admitted
pub mod Insert
