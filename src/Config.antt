-- ===== src/Config.antt =====
-- internal/config: the configuration of the control plane. The definitions are in Address and
-- Settings, and their properties in the other children.
pub mod Address
pub mod Port
pub mod Settings
pub mod Validation
pub mod Loading
pub mod Levels
