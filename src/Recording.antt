-- ===== src/Recording.antt =====
-- src/recording.rs: the exact PTY recording codec, format version 1. The CRC-32C and the version
-- of a UUID are parameters.
pub mod Geometry
pub mod Format
pub mod Encoder
pub mod Decoded
pub mod Header
pub mod Decoder
pub mod Segment
pub mod Join
pub mod Loop
pub mod Total
pub mod Order
pub mod Checksum
pub mod RoundTrip
