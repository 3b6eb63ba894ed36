-- ===== src/Auth.antt =====
-- internal/auth/auth.go: bearer tokens and the roles of their holders.
pub mod Keys
pub mod Tokens
pub mod Authentic
pub mod Freshness
