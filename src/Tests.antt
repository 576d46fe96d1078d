-- ===== src/Tests.antt =====
-- Runs of the models on concrete inputs, and the theorems at inputs that meet their hypotheses.
pub mod Broker
pub mod Config
pub mod Deploy
pub mod Edge
pub mod Env
pub mod Fleet
pub mod Health
pub mod Quote
pub mod Ports
pub mod Routes
pub mod Task
pub mod Vault
pub mod Vpn
