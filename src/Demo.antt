-- ===== src/Demo.antt =====
-- examples: the demo server, the demo client and its phone.
pub mod Phone
pub mod Server
pub mod Handshake
pub mod Client
pub mod Auth
pub mod Load
