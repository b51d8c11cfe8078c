-- ===== src/Pool/Refine/Redeem.antt =====
-- `process_redeem` empties the pool that it is given when all pool tokens are redeemed.
use bonfida_bot.Prelude.{ℕ, List, length, ltb, ◌==◌}
use bonfida_bot.Outcome.{insufficient_funds}
use bonfida_bot.Bytes.{Bytes}
use bonfida_bot.State.{Pubkey}
use bonfida_bot.Assets.{unpack_assets}
use bonfida_bot.Runtime.{Runtime, AccountInfo}
use bonfida_bot.Runtime.Inversion.{then, lift-then, reads-then, check-then}
use bonfida_bot.Processor.Common.{read_header, asset_bytes, mint_supply, next_accounts}
use bonfida_bot.Processor.Reads.{
  redeem_accounts-eq-ok, read_header-eq-ok, asset_bytes-eq-ok, mint_supply-eq-ok,
}
use bonfida_bot.Processor.Redeem.{process_redeem, redeem_accounts, buy_out, burn_tokens}
use bonfida_bot.Processor.Redeem.Gates.{redeem_checks-then, MayRedeem}
use bonfida_bot.Pool.Frame.{IsRuntime}
use bonfida_bot.Pool.Keeps.{buy_out-Keeps, burn_tokens-Keeps}
use bonfida_bot.Pool.Step.{pool_bytes}
use bonfida_bot.Pool.Refine.Reset.{reset_if}
use bonfida_bot.Pool.Moves.{Refines}

module _ {rt : Runtime} {program_id : Pubkey} (laws : IsRuntime rt program_id) where
  pub process_redeem-Refines :
      {key : Pubkey} (accounts : List AccountInfo) (pool_seed : Bytes) (amount : ℕ)
      → Refines program_id key (process_redeem rt program_id accounts pool_seed amount)
  unfolding process_redeem MayRedeem
  process_redeem-Refines {key = key} accounts pool_seed amount = record {
    at = λ p w w' _ h e.
        reads-then (redeem_accounts rt program_id accounts) _ w
          (λ q v. redeem_accounts-eq-ok rt program_id accounts w v q) e
          λ (a, rest) got e.
            reads-then (read_header a.pool) _ w (λ hd v. read_header-eq-ok a.pool w v hd) e
              λ header read e.
                reads-then (asset_bytes a.pool header) _ w
                  (λ tail v. asset_bytes-eq-ok a.pool header w v tail) e
                  λ tail _ e. lift-then (unpack_assets tail) _ w e λ assets _ e.
                    lift-then (next_accounts (length assets) rest) _ w e λ (froms, rest') _ e.
                      lift-then (next_accounts (length assets) rest') _ w e λ (tos, rest'') _ e.
                        redeem_checks-then rt program_id a header pool_seed _ w e λ checked e.
                          reads-then (mint_supply rt a.mint) _ w
                            (λ s v. mint_supply-eq-ok rt a.mint w v s) e
                            λ supply minted e.
                              lift-then (rt.unpack_account (w.ledger a.source_pool_token.key).bytes)
                                _ w e
                                λ source held e.
                                  check-then (ltb source.amount amount) insufficient_funds _ w e
                                    λ enough e.
                                      then
                                        (buy_out rt program_id a pool_seed amount supply assets
                                          froms tos)
                                        _ w e
                                        λ _ v e1 e.
                                          then (burn_tokens rt program_id a amount) _ v e
                                            λ _ u e2 e.
                                              let held =
                                                (burn_tokens-Keeps laws a amount).at (pool_bytes p)
                                                  v u tt
                                                  ((buy_out-Keeps laws a pool_seed amount supply
                                                      assets froms tos).at
                                                    (pool_bytes p) w v tt h.held e1)
                                                  e2 in
                                              reset_if (amount == supply) a.pool header p w u w' h
                                                read held checked.4 e;
  }
