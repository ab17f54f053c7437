-- ===== src/Controller.antt =====
-- src/internal/controller: what the cluster's events set off.
pub mod RouteTable
pub mod Status
pub mod Notify
pub mod Services
pub mod Discovery
