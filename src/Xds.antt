-- ===== src/Xds.antt =====
-- internal/xds: Envoy resources built from the registry and the desired routes, the snapshot that
-- holds them, and the tracker of open streams.
pub mod Resources
pub mod Build
pub mod Snapshot
pub mod Rounds
pub mod References
pub mod Consistency
pub mod Traffic
pub mod Ports
pub mod Assignments
pub mod Endpoints
pub mod Parts
pub mod Sources
pub mod Tracker
pub mod Streams
pub mod Grpc
