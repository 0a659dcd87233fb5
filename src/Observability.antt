-- ===== src/Observability.antt =====
-- controlplane/src/observability/: the metrics registry. Logs and tracing only call other crates.
pub mod Metrics
