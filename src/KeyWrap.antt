-- ===== src/KeyWrap.antt =====
-- kem.go: `aesKeyWrap` and `aesKeyUnwrap`, the key wrap of RFC 3394, over an unknown block cipher.
pub mod Cipher
pub mod Wrap
pub mod Step
pub mod Rows
pub mod Laws
mod Runs
