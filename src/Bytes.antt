-- ===== src/Bytes.antt =====
-- Memory as lists of bytes: the little-endian words of Rust's `to_le_bytes` and `from_le_bytes`,
-- `copy_nonoverlapping`, and a buffer that is read and written round its end.
pub mod Endian
pub mod Copy
pub mod Circular
