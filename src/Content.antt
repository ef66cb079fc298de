-- ===== src/Content.antt =====
-- encrypt.go and decrypt.go: the encryption of content.
pub mod Ciphers
pub mod Encrypt
pub mod Decrypt
pub mod Laws
pub mod Seal
pub mod SealLaws
pub mod Returns
pub mod Samples
mod Runs
