-- ===== src/Audio.antt =====
-- audio/loopback.go: the loopback. `buf` is the bytes.Buffer; a byte is a number.
pub mod Loopback
pub mod Copy
pub mod Channel
pub mod Observer
