-- ===== src/Parse.antt =====
-- pkcs7.go, verify.go and sign.go: whole messages, parsed and finished.
pub mod Wire
pub mod Read
pub mod Write
pub mod Laws
pub mod Samples
mod Runs
