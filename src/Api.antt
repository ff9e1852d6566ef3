-- ===== src/Api.antt =====
-- The data model of api/v1 and of the Kubernetes types that the program reads.
pub mod Meta
pub mod Containers
pub mod Pods
pub mod Migrations
pub mod Objects
pub mod Copies
