-- ===== src/Sign.antt =====
-- sign.go: building a signed message.
pub mod Monad
pub mod Signer
pub mod State
pub mod Adds
pub mod Signed
pub mod Steps
pub mod Chosen
pub mod Trip
pub mod Accepted
mod Runs
