-- ===== src/Observability.antt =====
-- src/observability/: the counters of the server.
pub mod Metrics
pub mod Snapshot
pub mod Json
mod Tests
