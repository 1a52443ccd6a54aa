-- ===== src/Api.antt =====
-- internal/api: the HTTP management API over the registry, the routing store, the last snapshot and
-- the stream tracker. The definitions are in Response, Request, Mux, Instances, Routes, Debug and
-- Server, and their properties in the other children.
pub mod Response
pub mod Request
pub mod Mux
pub mod Patterns
pub mod Instances
pub mod Expected
pub mod Routes
pub mod Debug
pub mod Correlation
pub mod Server
pub mod Counting
pub mod Logged
pub mod Effects
pub mod Requests
pub mod Apart
pub mod Paths
pub mod Answers
pub mod Trips
