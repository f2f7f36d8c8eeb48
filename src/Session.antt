-- ===== src/Session.antt =====
-- The package rtvbp: sessions.
pub mod State
pub mod Core
pub mod Lifecycle
pub mod Options
pub mod Run
pub mod Tracked
pub mod Pending
pub mod Calls
pub mod Errors
pub mod Sending
pub mod Contract
pub mod Replies
pub mod Answers
pub mod Returns
pub mod Requests
pub mod Typed
pub mod Twice
