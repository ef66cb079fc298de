-- ===== src/Ber.antt =====
-- ber.go: transcoding BER to DER. A byte slice is a list of numbers and an offset is a number, as in
-- the source; reading an index out of range is a panic. `Encode` is the writing half, `Decode` the
-- reading half, and the other children prove what they do.
pub mod Encode
pub mod Decode
pub mod Grammar
pub mod Cursor
pub mod Tag
pub mod Length
pub mod LengthRun
pub mod Header
pub mod HeaderRun
pub mod Loop
pub mod Sound
pub mod Complete
pub mod LengthOctets
pub mod Canonical
pub mod Octets
pub mod Transcode
pub mod LengthTrip
pub mod Nesting
mod Runs
