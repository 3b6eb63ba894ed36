-- ===== src/Providers.antt =====
-- internal/infrastructure: the collaborators of the services that call remote systems.
pub mod Http
pub mod Breaker
pub mod Demo
pub mod Similarity
