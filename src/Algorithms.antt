-- ===== src/Algorithms.antt =====
-- pkcs7.go, sign.go and verify.go: the object identifiers of a signature, and what they stand for.
pub mod Oids
pub mod Keys
pub mod Choose
pub mod Accept
pub mod Laws
pub mod Pss
mod Runs
