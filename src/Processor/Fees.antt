-- ===== src/Processor/Fees.antt =====
-- The arithmetic of `process_collect_fees`.
pub mod Clock
pub mod Split
pub mod Minting
use bonfida_bot.Prelude.{ℕ, ◌-◌, ◌*◌, ◌/◌, ◌%◌, ◌^◌}
use bonfida_bot.Outcome.{Result, ◌>>=◌, ok}
use bonfida_bot.State.{PoolHeader}
use bonfida_bot.Utils.{pow_fixedpoint_u16}
use bonfida_bot.Processor.Common.{sub_u64, add_u64, div_or_panic}

-- `(current_timestamp - last_fee_collection_timestamp) / fee_collection_period`
unfoldable pub fee_cycles : PoolHeader → ℕ → Result ℕ
fee_cycles header now =
    div_or_panic (sub_u64 now header.last_fee_collection_timestamp) header.fee_collection_period

-- `!x` of a u16
abbrev pub not_u16 : ℕ → ℕ
not_u16 x = 65535 - x

-- `pow_fixedpoint_u16(!fee_ratio as u32, cycles) as u16`
unfoldable pub feeless_ratio : ℕ → ℕ → ℕ
feeless_ratio fee_ratio cycles = pow_fixedpoint_u16 (not_u16 fee_ratio) cycles % 2 ^ 16

-- `(collect_ratio * total_pooltokens / feeless_ratio) as u64`: 16 and 64 bits in a u128.
unfoldable pub tokens_to_mint : ℕ → ℕ → Result ℕ
tokens_to_mint feeless total = do
  tokens ← div_or_panic (not_u16 feeless * total) feeless
  ok (tokens % 2 ^ 64)

-- The header after `cycles` cycles were collected.
unfoldable pub collected_header : PoolHeader → ℕ → PoolHeader
collected_header header cycles = record header {
  last_fee_collection_timestamp =
      add_u64 header.last_fee_collection_timestamp (cycles * header.fee_collection_period % 2 ^ 64);
}

-- How the tokens are shared out: the signal provider, Bonfida's fee account, and the rest.
pub record Shares : Type 0 where
  pub signal_provider : ℕ
  pub bonfida_fee : ℕ
  pub bonfida_bnb : ℕ

unfoldable pub share_out : ℕ → Shares
share_out tokens = record {
  signal_provider = tokens / 2;
  bonfida_fee = tokens / 4;
  bonfida_bnb = sub_u64 (sub_u64 tokens (tokens / 4)) (tokens / 2);
}
