-- ===== src/System.antt =====
-- How the components answer for one another: from the objects of the cluster to what a client
-- meets.
pub mod Delivery
pub mod Honesty
pub mod Adoption
pub mod Overriding
