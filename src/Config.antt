-- ===== src/Config.antt =====
-- internal/config, and the conversion of its routes in cmd/devgate/routes.go.
pub mod Route
pub mod Conversion
pub mod Converted
pub mod Settings
pub mod Started
