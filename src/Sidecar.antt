-- ===== src/Sidecar.antt =====
-- The sidecar that runs on every node: internal/sidecar.
pub mod Host
pub mod Kubelet
pub mod Transfer
pub mod Manager
pub mod Server
pub mod Reconciler
pub mod Location
pub mod Costs
pub mod Bounds
pub mod Delivery
pub mod Steps
pub mod Run
pub mod Unsent
pub mod Deletion
pub mod Attempts
pub mod Offline
pub mod Online
