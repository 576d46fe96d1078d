-- ===== src/Env.antt =====
-- internal/env: an environment's ports, its replicas and how they are rolled out.
pub mod Deploy
pub mod Health
pub mod Layout
pub mod Replicas
pub mod Rollout
