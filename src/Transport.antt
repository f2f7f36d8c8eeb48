-- ===== src/Transport.antt =====
-- transport.go, and the package transport.
pub mod Interface
pub mod Direct
pub mod Ws
