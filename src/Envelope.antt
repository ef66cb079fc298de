-- ===== src/Envelope.antt =====
-- encrypt.go and decrypt.go: messages encrypted with a shared key.
pub mod Psk
pub mod Trip
pub mod Recipients
mod Runs
