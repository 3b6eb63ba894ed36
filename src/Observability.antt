-- ===== src/Observability.antt =====
-- internal/observability: the registry of metrics.
pub mod Metrics
pub mod Histogram
