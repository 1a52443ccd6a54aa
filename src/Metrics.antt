-- ===== src/Metrics.antt =====
-- internal/metrics: the Prometheus collectors of the control plane, and what they show of the
-- components that call them.
pub mod Collectors
pub mod Names
pub mod Agreement
