-- ===== src/Reconciliation.antt =====
-- internal/reconciliation: the loop that sweeps the registry, builds a snapshot and publishes it.
pub mod Decimal
pub mod Backoff
pub mod Reconciler
pub mod Rounds
pub mod Loop
pub mod Runs
pub mod Waits
