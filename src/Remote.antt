-- ===== src/Remote.antt =====
-- internal/remote: what is sent to a machine's shell.
pub mod Quote
