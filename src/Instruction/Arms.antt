-- ===== src/Instruction/Arms.antt =====
-- The arms of `PoolInstruction::unpack` on any bytes.
use bonfida_bot.Prelude.{◌+◌, ◌≤◌, refl, arith, length, All}
use bonfida_bot.Bytes.{Bytes, IsByte}
use bonfida_bot.Instruction.Defs.{
  init, create, deposit, cancel_order, settle_funds, redeem, collect_fees,
}
use bonfida_bot.Instruction.Range.{IsInstruction}
use bonfida_bot.Instruction.Amounts.{read_amounts_ends}
use bonfida_bot.Instruction.Readers.{
  Reads, value, Reads-ok, Reads-bind, read_le-Reads, read_key-Reads, read_non_zero-Reads,
  read_side-Reads, read_order_type-Reads, read_self_trade_behavior-Reads, read_seed-Reads,
  read_markets-Reads,
}
use bonfida_bot.Instruction.Unpack.{
  read_le, read_key, read_seed, read_side, read_order_type, read_self_trade_behavior, read_non_zero,
  read_markets, unpack_init, unpack_create, unpack_deposit, unpack_create_order,
  unpack_cancel_order, unpack_settle_funds, unpack_redeem, unpack_collect_fees,
}

module _ (rest : Bytes) (bytes : All IsByte rest) where
  pub unpack_create_order-Reads : Reads IsInstruction (unpack_create_order rest)
  unfolding unpack_create_order read_key
  unpack_create_order-Reads =
      Reads-bind (read_key 0 32 rest) _ (read_key-Reads rest bytes 0 32 32 refl) λ seed v0.
        Reads-bind (read_side 32 rest) _ (read_side-Reads rest bytes 32) λ side _.
          Reads-bind (read_non_zero 33 41 rest) _ (read_non_zero-Reads rest bytes 33 41 8 refl)
            λ price v1.
              Reads-bind (read_non_zero 41 43 rest) _ (read_non_zero-Reads rest bytes 41 43 2 refl)
                λ ratio v2.
                  Reads-bind (read_order_type 43 rest) _ (read_order_type-Reads rest bytes 43)
                    λ type _.
                      Reads-bind (read_le 44 52 rest) _ (read_le-Reads rest bytes 44 52 8 refl)
                        λ client v3.
                          Reads-bind (read_self_trade_behavior 52 rest) _
                            (read_self_trade_behavior-Reads rest bytes 52)
                            λ behavior _.
                              Reads-bind (read_le 53 61 rest) _
                                (read_le-Reads rest bytes 53 61 8 refl)
                                λ source v4.
                                  Reads-bind (read_le 61 69 rest) _
                                    (read_le-Reads rest bytes 61 69 8 refl)
                                    λ target v5.
                                      Reads-bind (read_le 69 71 rest) _
                                        (read_le-Reads rest bytes 69 71 2 refl)
                                        λ market v6.
                                          Reads-bind (read_le 71 79 rest) _
                                            (read_le-Reads rest bytes 71 79 8 refl)
                                            λ coin v7.
                                              Reads-bind (read_le 79 87 rest) _
                                                (read_le-Reads rest bytes 79 87 8 refl)
                                                λ pc v8.
                                                  Reads-bind (read_key 87 119 rest) _
                                                    (read_key-Reads rest bytes 87 119 32 refl)
                                                    λ mint v9.
                                                      Reads-bind (read_le 119 121 rest) _
                                                        (read_le-Reads rest bytes 119 121 2 refl)
                                                        λ serum v10. Reads-ok _ (record {
                                                          pool_seed = v0;
                                                          limit_price = v1;
                                                          ratio = v2;
                                                          client_id = v3;
                                                          source_index = v4;
                                                          target_index = v5;
                                                          market_index = v6;
                                                          coin_lot_size = v7;
                                                          pc_lot_size = v8;
                                                          target_mint = v9;
                                                          serum_limit = v10;
                                                        })

  module _ (long : 32 ≤ length rest) where
    pub unpack_init-Reads : Reads IsInstruction (unpack_init rest)
    unfolding unpack_init
    unpack_init-Reads = Reads-bind (read_seed rest) _ (read_seed-Reads rest bytes long) λ seed v0.
        Reads-bind (read_le 32 36 rest) _ (read_le-Reads rest bytes 32 36 4 refl) λ n v1.
          Reads-bind (read_le 36 38 rest) _ (read_le-Reads rest bytes 36 38 2 refl)
            λ m v2. Reads-ok (init seed n m) (v0, v1, v2)

    pub unpack_create-Reads : Reads IsInstruction (unpack_create rest)
    unfolding unpack_create
    unpack_create-Reads = Reads-bind (read_seed rest) _ (read_seed-Reads rest bytes long) λ seed v0.
        Reads-bind (read_le 32 34 rest) _ (read_le-Reads rest bytes 32 34 2 refl) λ n v1.
          Reads-bind (read_le 34 42 rest) _ (read_le-Reads rest bytes 34 42 8 refl) λ period v2.
            Reads-bind (read_le 42 44 rest) _ (read_le-Reads rest bytes 42 44 2 refl) λ ratio v3.
              Reads-bind (read_markets n 44 rest) _ (read_markets-Reads rest bytes n 44)
                λ (markets, end) (count, keys, after).
                  let (amounts, ranged, reads) =
                    read_amounts_ends (length rest + 2) end rest bytes (omega arith)
                      (omega arith) in
                  value
                    (create (record {
                      pool_seed = seed;
                      fee_collection_period = period;
                      fee_ratio = ratio;
                      deposit_amounts = amounts;
                      markets = markets;
                    }))
                    (rw (reads (length rest + 2) (omega arith) (omega arith)) refl)
                    (record {
                      pool_seed = v0;
                      fee_collection_period = v2;
                      fee_ratio = v3;
                      deposit_amounts = ranged;
                      markets = keys;
                      number_of_markets = omega arith;
                    })

    pub unpack_deposit-Reads : Reads IsInstruction (unpack_deposit rest)
    unfolding unpack_deposit
    unpack_deposit-Reads =
        Reads-bind (read_seed rest) _ (read_seed-Reads rest bytes long) λ seed v0.
          Reads-bind (read_le 32 40 rest) _ (read_le-Reads rest bytes 32 40 8 refl)
            λ n v1. Reads-ok (deposit seed n) (v0, v1)

    pub unpack_cancel_order-Reads : Reads IsInstruction (unpack_cancel_order rest)
    unfolding unpack_cancel_order
    unpack_cancel_order-Reads =
        Reads-bind (read_seed rest) _ (read_seed-Reads rest bytes long) λ seed v0.
          Reads-bind (read_side 32 rest) _ (read_side-Reads rest bytes 32) λ side _.
            Reads-bind (read_le 33 49 rest) _ (read_le-Reads rest bytes 33 49 16 refl)
              λ n v1. Reads-ok (cancel_order seed side n) (v0, v1)

    pub unpack_settle_funds-Reads : Reads IsInstruction (unpack_settle_funds rest)
    unfolding unpack_settle_funds
    unpack_settle_funds-Reads =
        Reads-bind (read_seed rest) _ (read_seed-Reads rest bytes long) λ seed v0.
          Reads-bind (read_le 32 40 rest) _ (read_le-Reads rest bytes 32 40 8 refl) λ pc v1.
            Reads-bind (read_le 40 48 rest) _ (read_le-Reads rest bytes 40 48 8 refl)
              λ coin v2. Reads-ok (settle_funds seed pc coin) (v0, v1, v2)

    pub unpack_redeem-Reads : Reads IsInstruction (unpack_redeem rest)
    unfolding unpack_redeem
    unpack_redeem-Reads = Reads-bind (read_seed rest) _ (read_seed-Reads rest bytes long) λ seed v0.
        Reads-bind (read_le 32 40 rest) _ (read_le-Reads rest bytes 32 40 8 refl)
          λ n v1. Reads-ok (redeem seed n) (v0, v1)

    pub unpack_collect_fees-Reads : Reads IsInstruction (unpack_collect_fees rest)
    unfolding unpack_collect_fees
    unpack_collect_fees-Reads =
        Reads-bind (read_seed rest) _ (read_seed-Reads rest bytes long)
          λ seed v0. Reads-ok (collect_fees seed) v0
