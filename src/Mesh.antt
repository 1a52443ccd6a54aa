-- ===== src/Mesh.antt =====
-- internal/controlplane/controlplane.go: the parts that `New` wires together, and what they do to one
-- another while they run.
pub mod System
pub mod Traffic
pub mod Published
pub mod Origin
pub mod Delivered
pub mod Removed
