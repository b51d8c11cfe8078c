-- ===== src/Pool/Refine.antt =====
-- Each handler of program/src/processor.rs makes a step of the abstract pool.
pub mod Collect
pub mod Reset
pub mod Redeem
pub mod Status
pub mod Settle
pub mod Written
pub mod Checks
pub mod Create
pub mod Program
