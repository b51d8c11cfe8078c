-- ===== src/Lib.antt =====
-- bonfida-bot: the on-chain program that keeps trading pools (program/src).
--
-- A pool is an account whose data holds a header of 117 bytes, 32 bytes for each market that may
-- be traded on, and 32 bytes for each asset. Investors deposit assets for pool tokens, redeem
-- pool tokens for assets, and anyone can collect the fees, which are minted as new pool tokens.
-- The entrypoint unpacks an instruction and calls its handler, and a handler reads and writes the
-- pool's data and calls the token program, the system program and the Serum DEX.
--
-- Files:
--   Prelude, Bytes     numbers, lists, slices and little-endian integers; no code of the program
--   Outcome            program/src/error.rs, and a Rust function's result: `ok`, `err`, or
--                      `panicked`, which aborts the transaction
--   State, Assets      program/src/state.rs: PoolHeader and PoolStatus; PoolAsset and the markets
--   Instruction        program/src/instruction.rs: PoolInstruction, `pack` and `unpack`
--   Client             program/src/instruction.rs, from `init` on: the functions that build calls
--   Runtime            the accounts, and the other programs and crates as fields of `Runtime`; the
--                      token program's documented behaviour (Tokens)
--   Utils              program/src/utils.rs
--   Processor          program/src/processor.rs: a child module for each `process_...` function,
--                      named for it (Create holds process_init, too; Cancel process_create_order)
--   Entrypoint         program/src/entrypoint.rs
--   Pool               the life of a pool: what each instruction does to the data of the program's
--                      accounts (Keeps, Refine), as steps of an abstract pool (Step), and what
--                      holds over any run of instructions (Terms, Life); when deposits,
--                      redemptions and fee collections succeed, alone and one after the other, and
--                      what they leave on the ledger; a pool whose due fees block it (Live)
--   Tests              a concrete runtime and pool, and the theorems applied to them
--
-- State: a handler is an action on a `World`, which holds the ledger, a function from keys to
-- accounts, and the list of the calls of `invoke` and `invoke_signed` so far. Two entries for one
-- account share its data, since an account's fields are looked up by its key. If a handler fails,
-- the runtime drops what it did, so an error and a panic carry no state. `msg!` is left out, but
-- for the messages of the entrypoint itself.
--
-- Numbers: u64 and usize are natural numbers, and their arithmetic wraps, as it does in the
-- release build that runs on chain (program/Cargo.toml sets no overflow-checks). A division by
-- zero, a slice out of range, `unwrap` of nothing and `unreachable!` are `panicked`.
--
-- Recursion: the loops recurse on their lists. `pow_acc` recurses on the accessibility of its
-- exponent. `read_amounts` reads numbers of 8 bytes from what is left of an instruction, on fuel
-- of its length and 2, which is more than it has rounds.
--
-- The abstract pool: a header, and the bytes behind it. `Pool.Step.Step` has one constructor for
-- each change that a successful instruction can make. What is proved of it assumes of the runtime
-- what `Pool.Frame.IsRuntime` says: the program is not made to call itself, which Solana permits
-- and a caller of a settlement could ask for; a call of another program leaves the data and the
-- owner of this program's accounts alone, and the clock's time is a u64.
--
-- When a handler succeeds depends on the token program. Pool.Live assumes of it what
-- `Runtime.Tokens.IsToken` and `Runtime.Tokens.IsMinting` say: a transfer, a burn and a mint whose
-- accounts and signatures are right succeed, change two accounts' amounts, and nothing else. What
-- the token program asks of an account beyond that (that it owns it, that it is not frozen) is the
-- predicate `Usable`, and who may mint is `Authority`. Tests.Tokens is a program that behaves so.
--
-- Not modelled: solana_program, spl_token, spl_associated_token_account and serum_dex, which are
-- parameters; the entrypoint macro and the printing of an error's code, which are solana_program's;
-- the texts and `type_of` of program/src/error.rs, which no code of the program uses; the body
-- of process_create_order that is commented out; the tests, the fuzzer, and the library under js.
pub mod Prelude
pub mod Outcome
pub mod Bytes
pub mod State
pub mod Assets
pub mod Instruction
pub mod Runtime
pub mod Utils
pub mod Processor
pub mod Client
pub mod Tests
pub mod Pool
pub mod Entrypoint
