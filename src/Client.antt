-- ===== src/Client.antt =====
-- client.go: the parts of the VPN client that work without the network.
pub mod Lifecycle
pub mod Packets
pub mod Settings
pub mod Auth
pub mod Pushed
