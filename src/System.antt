-- ===== src/System.antt =====
-- The parts together: runs of several reconcilers on one API server.
pub mod Checkpoints
pub mod Migrations
pub mod Members
pub mod PodCheckpoints
pub mod Whole
pub mod Deliveries
pub mod Rest
