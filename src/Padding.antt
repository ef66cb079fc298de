-- ===== src/Padding.antt =====
-- encrypt.go `pad` and decrypt.go `unpad`: PKCS #7 block padding. A block length below 1 is the
-- number 0. `Laws` proves that the one undoes the other.
pub mod Block
pub mod Scan
pub mod Laws
pub mod Trip
mod Runs
