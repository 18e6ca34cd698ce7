-- ===== src/Controller.antt =====
-- internal/controller: the reconcilers of a VolumeGroupReplication, one module for each part.
pub mod Interval
pub mod Failover
pub mod Session
pub mod Conditions
pub mod FinalSync
pub mod Configuration
pub mod Primary
pub mod Secondary
pub mod Delete
pub mod Reconciler
