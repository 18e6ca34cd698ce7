-- ===== src/Tests.antt =====
-- A cluster in memory, and the theorems of the library applied on it.
pub mod Memory
pub mod Lawful
mod Claims
mod Reconcilers
mod Failover
mod Secrets
mod Start
mod Destinations
