-- ===== src/Config.antt =====
-- internal/config: an app's configuration.
pub mod Expand
