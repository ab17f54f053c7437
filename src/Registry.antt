-- ===== src/Registry.antt =====
-- src/internal/registry/registry.go: from the routes of the cluster to the lookup table.
pub mod Address
pub mod Resolve
pub mod Build
pub mod Order
pub mod Table
pub mod Errors
pub mod Client
