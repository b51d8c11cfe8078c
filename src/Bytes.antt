-- ===== src/Bytes.antt =====
-- Byte slices and little-endian integers, as the program uses Rust's standard library for them.
-- A byte is a number below 256; a slice is a list of bytes.
mod Defs
mod Ints
mod Slices
mod Ranges
mod Equality
unfoldable pub use Defs.*
pub use Ints.*
pub use Slices.*
pub use Ranges.*
pub use Equality.*
