-- ===== src/Handler.antt =====
-- The package rtvbp: request handlers, event handlers and the table that selects them.
pub mod Shc
pub mod Typed
pub mod Registry
pub mod Nil
pub mod Testing
