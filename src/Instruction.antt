-- ===== src/Instruction.antt =====
-- program/src/instruction.rs: the instructions, their byte format, and the functions that build
-- them for a client. The enums of serum_dex are the variants that the program names.
pub mod Format
pub mod Unpack
pub mod Amounts
pub mod Readers
pub mod Arms
pub mod Total
pub mod Range
pub mod RoundTrip
mod Defs
unfoldable pub use Defs.*
