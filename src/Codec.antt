-- ===== src/Codec.antt =====
-- sans-effort-core/src/boundary/codec.rs: values written as little-endian bytes, and read back.
-- A byte is a number below 256, a `Vec<u8>` or `&[u8]` a list of bytes, and a `str` or `String` the
-- list of its UTF-8 bytes. `usize` has 64 bits.
pub mod Words
pub mod Utf8
pub mod Reader
pub mod Writer
pub mod Values
pub mod Nested
pub mod RoundTrip
pub mod Shapes
pub mod Canonical
mod Tests
