-- ===== src/Attributes.antt =====
-- pkcs7.go and sign.go: the attributes of a signer, sorted and encoded.
pub mod Order
pub mod Encoding
pub mod Marshal
pub mod Sorted
pub mod Laws
pub mod Insertion
pub mod Lookup
pub mod Samples
mod Runs
