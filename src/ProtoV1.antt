-- ===== src/ProtoV1.antt =====
-- The package proto/protov1: the requests and events of version 1, and the client's handler.
pub mod Requests
pub mod Ping
pub mod Dtmf
pub mod Telephony
pub mod AudioInfo
pub mod Client
pub mod Initialize
