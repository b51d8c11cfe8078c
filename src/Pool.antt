-- ===== src/Pool.antt =====
-- The life of a pool on the ledger: what each instruction of program/src/processor.rs does to the
-- data of the program's accounts, and what holds of a pool over any run of instructions.
pub mod Frame
pub mod Step
pub mod Front
pub mod Sizes
pub mod Writes
pub mod Moves
pub mod Refine
pub mod Terms
pub mod Life
pub mod Keeps
pub mod Live
