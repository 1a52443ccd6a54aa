-- ===== src/Routing.antt =====
-- internal/routing: the desired traffic configuration of each service. The definitions are in Spec
-- and Store, and their properties in the other children.
pub mod Spec
pub mod Validation
pub mod Store
