-- ===== src/Volsync/Footprint.antt =====
-- The calls of the API server that the operations of internal/volsync/handler.go make.
pub mod Claims
pub mod Source
pub mod Volumes
pub mod Destination
pub mod Cleanup
