-- ===== src/Message.antt =====
-- pkcs7.go, sign.go and verify.go: the structures of a signed message, and its certificates.
pub mod Types
pub mod Certificates
pub mod Pkcs7
