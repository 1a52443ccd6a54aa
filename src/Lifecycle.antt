-- ===== src/Lifecycle.antt =====
-- internal/controlplane/controlplane.go: the life of the process, from the start of its goroutines to
-- the return of `Run`. Process has the steps, the other children what holds of their runs.
pub mod Process
pub mod Results
pub mod Returns
pub mod Draining
