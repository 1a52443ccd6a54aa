-- ===== src/Watcher.antt =====
-- cmd/k8s-watcher: it keeps the registry in step with the endpoints of a Kubernetes Service. The
-- definitions are in Calls, Reconcile and Transport, and their properties in the other children.
pub mod Calls
pub mod Reconcile
pub mod Transport
pub mod Paths
pub mod Effects
pub mod Rounds
pub mod Listed
pub mod Loops
pub mod Polls
pub mod Start
pub mod Convergence
pub mod Recovery
