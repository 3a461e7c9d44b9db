-- ===== src/Discovery.antt =====
-- internal/discovery.
pub mod Dns
pub mod Watcher
pub mod Published
