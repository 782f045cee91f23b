-- ===== src/Net.antt =====
-- The libraries for the network, components/NET, but for `wifi`.
pub mod Http
pub mod Httpd
pub mod Socket
pub mod Tls
pub mod Setup
