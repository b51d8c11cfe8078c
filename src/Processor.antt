-- ===== src/Processor.antt =====
-- program/src/processor.rs: one module for each handler, and the dispatch. u64 arithmetic wraps,
-- as it does in the release build that runs on chain; a division by zero panics.
pub mod Common
pub mod Division
pub mod Reads
pub mod Headers
pub mod Mints
pub mod Payments
pub mod Fees
pub mod CollectFees
pub mod Redeem
pub mod Create
pub mod Dispatch
pub mod Instructions
pub mod Deposit
pub mod Settle
pub mod Cancel
