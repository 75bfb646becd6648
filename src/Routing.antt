-- ===== src/Routing.antt =====
-- The routing package: the options that the server pushes, and the ownership of the routes.
pub mod Push
pub mod Ownership
pub mod Netlink
