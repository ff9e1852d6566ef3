-- ===== src/Kube.antt =====
-- The Kubernetes libraries as the program calls them: controller-runtime's client, its
-- `controllerutil`, and client-go's `retry`. They are not the program's own code, so they are a
-- parameter of every component, with the laws that a theorem needs in `Laws`.
pub mod Client
pub mod Retry
pub mod Table
pub mod Laws
pub mod Memory
pub mod Sequential
