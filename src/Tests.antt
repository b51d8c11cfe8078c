-- ===== src/Tests.antt =====
-- The theorems at concrete inputs: a pool with one market and one asset, and a runtime whose
-- other programs accept every call. No code of the program is modelled here.
pub mod Fixtures
pub mod Ranges
mod Handlers
pub mod Collect
pub mod Life
mod Creations
mod Settlements
mod Instructions
mod Amounts
mod Layouts
pub mod Tokens
pub mod Claims
mod Leaving
mod Buying
mod Returning
mod Stuck
mod Exits
