-- ===== src/Proto.antt =====
-- The package proto: messages, their validation, the wire format and the errors.
pub mod Json
pub mod Errors
pub mod Message
pub mod Parse
pub mod WellFormed
pub mod RoundTrip
