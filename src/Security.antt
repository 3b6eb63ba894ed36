-- ===== src/Security.antt =====
-- internal/security/http.go: the rate limiter of the HTTP interface.
pub mod Limiter
pub mod Budget
pub mod Limits
pub mod Waiting
