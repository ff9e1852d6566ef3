-- ===== src/Examples.antt =====
-- The theorems at concrete inputs, against the API server in memory.
pub mod Containers
pub mod Migrations
pub mod Pods
pub mod Sidecar
pub mod System
pub mod Whole
pub mod Cmd
pub mod Copies
pub mod Deliveries
pub mod Rest
pub mod Unsent
