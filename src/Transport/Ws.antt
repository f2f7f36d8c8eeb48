-- ===== src/Transport/Ws.antt =====
-- transport/ws: the WebSocket transport.
pub mod Message
pub mod Control
pub mod Outgoing
pub mod Frames
pub mod State
pub mod Process
pub mod Client
pub mod Server
pub mod Table
pub mod Starting
