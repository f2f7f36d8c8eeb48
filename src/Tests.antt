-- ===== src/Tests.antt =====
-- Runs of the model at concrete inputs, and the theorems at them.
pub mod Recorder
pub mod Sessions
pub mod Served
pub mod Shutdown
pub mod Messages
pub mod Transports
pub mod Protocol
pub mod Client
pub mod Audio
pub mod Pair
pub mod Process
pub mod Wire
pub mod Run
pub mod Demo
pub mod Network
pub mod Shutdowns
pub mod Channels
