-- ===== src/Verify.antt =====
-- verify.go: checking the signatures of a message.
pub mod Check
pub mod Laws
pub mod Accepted
pub mod Binding
pub mod Samples
mod Runs
