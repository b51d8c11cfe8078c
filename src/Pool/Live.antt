-- ===== src/Pool/Live.antt =====
-- When the handlers of program/src/processor.rs succeed, and what they leave on the ledger, if the
-- token program behaves as documented.
pub mod Access
pub mod Claim
pub mod Redeem
pub mod Returning
pub mod Return
pub mod Mints
pub mod Shares
pub mod Collection
pub mod Collect
pub mod Exit
pub mod Stuck
pub mod Purchase
pub mod Charges
pub mod Minted
pub mod Deposit
