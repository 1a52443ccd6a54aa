-- ===== src/Registry.antt =====
-- internal/registry: the in-memory service registry. The definitions are in Types and Ops, and
-- their properties in the other children.
pub mod Types
pub mod Ops
pub mod View
pub mod Promises
pub mod Validity
pub mod Listing
pub mod Services
pub mod Reads
pub mod Health
pub mod Calls
pub mod Namespaces
pub mod Refinement
pub mod Abstract
