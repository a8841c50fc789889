-- ===== src/Protocol/Primitives.antt =====
-- src/protocol/primitives.rs: the protocol's primitive types. A newtype such as `Int16(i16)` is the
-- value that it wraps, and a `usize` has 64 bits.
pub mod Ints
pub mod Varint
pub mod Zigzag
pub mod Lengths
pub mod Text
pub mod ByteStrings
pub mod Collections
pub mod Codecs
pub mod Total
pub mod RoundTrip
