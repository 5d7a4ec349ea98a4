-- ===== src/Tests.antt =====
-- Concrete runs of the model, with the data they share.
pub mod Data
mod Drift
mod Alert
pub mod Service
pub mod Setup
mod Runs
mod Vault
mod Providers
mod Fleet
mod Api
mod Daemon
