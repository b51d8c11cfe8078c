-- ===== src/Tests/Layouts.antt =====
-- The formats, at concrete data.
use bonfida_bot.State.Header.{IsHeader, unpack-pack_header, unpack_total, IsHeader-IsSized}
use bonfida_bot.State.Layout.{header_bytes}
use bonfida_bot.Client
use bonfida_bot.Instruction
use bonfida_bot.Prelude.{
  if◌then◌else◌, drop, replicate, ◌+◌, ◌*◌, ◌/◌, ◌^◌, ◌≡◌, refl, ◌⊎◌, true, List, [], ◌∷◌, ◌++◌,
  map, arith,
}
use bonfida_bot.Outcome.{ok, ◌>>=◌, invalid_argument, uninitialized_account, err}
use bonfida_bot.Bytes.{concat}
use bonfida_bot.State.{PoolAsset, is_initialized, PoolHeader, pack}
use bonfida_bot.State.Header
use bonfida_bot.State
use bonfida_bot.Instruction.RoundTrip
use bonfida_bot.Instruction.Format
use bonfida_bot.Instruction.Unpack
use bonfida_bot.Instruction.{bid, cancel_order, redeem}
use bonfida_bot.Runtime.{Instruction as Call, AccountInfo, Instruction}
use bonfida_bot.Assets.{
  pack_asset_at, unpack_assets, unpack_unchecked_asset, unpack_market, pack_markets,
}
use bonfida_bot.Assets.Access.{
  unpack_unchecked_asset-pack_asset_at, unpack_unchecked_asset_elsewhere,
  unpack_unchecked_asset_out_of_range, unpack_unchecked_asset_wraps,
}
use bonfida_bot.Assets.Pieces.{unpack_assets-eq-keep, pieces, keep}
use bonfida_bot.Assets.Markets.{unpack_market-pack_markets}
use bonfida_bot.Processor.Common.{next_accounts}
use bonfida_bot.Processor.Redeem.{RedeemAccounts, redeem_accounts}
use bonfida_bot.Processor.Create.{write_pool}
use bonfida_bot.Processor.Create.Layout.{write_pool_lem, mints}
use bonfida_bot.Client.Agreement.{redeem_agrees, as_info, infos}
use bonfida_bot.Tests.Fixtures.{
  key, program_key, pool_key, mint_key, clock_key, spl_key, owner_key, source_key, target_key,
  vault_key, runtime, header, start,
}
use bonfida_bot.Tests.Ranges.{header-IsHeader, All-replicate}

unpack-pack_header_example :
    (State.pack header (replicate 117 0) >>= State.unpack)
    ≡ (if is_initialized header then ok header else err uninitialized_account)
unpack-pack_header_example = Header.unpack-pack_header header (replicate 117 0) header-IsHeader refl

unpack_total_example :
    ((h : PoolHeader) × (State.unpack (replicate 117 200) ≡ ok h)
      × IsHeader h
      × (is_initialized h ≡ true))
    ⊎ (State.unpack (replicate 117 200) ≡ err uninitialized_account)
unpack_total_example =
    Header.unpack_total (replicate 117 200)
      (record { size = refl; bytes = All-replicate 117 200 (omega arith) })

unpack-pack_example :
    Unpack.unpack (Format.pack (Instruction.cancel_order pool_key Instruction.bid 7))
    ≡ ok (Instruction.cancel_order pool_key Instruction.bid 7)
unpack-pack_example =
    RoundTrip.unpack-pack (Instruction.cancel_order pool_key Instruction.bid 7) (refl, omega arith)

unpack_assets-eq-keep_example :
    unpack_assets (key 7 ++ (key 0 ++ key 8))
    ≡ ok (keep (pieces (96 / 32) (key 7 ++ (key 0 ++ key 8))))
unpack_assets-eq-keep_example = unpack_assets-eq-keep (key 7 ++ (key 0 ++ key 8))

abbrev mint : PoolAsset
mint = record { mint_address = key 7 }

unpack_unchecked_asset-pack_asset_at_example :
    (pack_asset_at mint 1 (replicate 96 0) >>= λ target'. unpack_unchecked_asset target' 1)
    ≡ ok mint
unpack_unchecked_asset-pack_asset_at_example =
    unpack_unchecked_asset-pack_asset_at mint 1 (replicate 96 0) refl (omega arith) (omega arith)

unpack_unchecked_asset_elsewhere_example :
    (pack_asset_at mint 1 (replicate 96 0) >>= λ target'. unpack_unchecked_asset target' 2)
    ≡ unpack_unchecked_asset (replicate 96 0) 2
unpack_unchecked_asset_elsewhere_example =
    unpack_unchecked_asset_elsewhere mint 1 2 (replicate 96 0) refl (omega arith) (omega arith)
      (omega arith) (omega arith)

unpack_unchecked_asset_out_of_range_example :
    unpack_unchecked_asset (replicate 96 0) 3 ≡ err invalid_argument
unpack_unchecked_asset_out_of_range_example =
    unpack_unchecked_asset_out_of_range 3 (replicate 96 0) (omega arith) (omega arith)

unpack_unchecked_asset_wraps_example :
    unpack_unchecked_asset (replicate 96 0) (1 + 2 ^ 59) ≡ unpack_unchecked_asset (replicate 96 0) 1
unpack_unchecked_asset_wraps_example = unpack_unchecked_asset_wraps 1 (replicate 96 0)

unpack_market-pack_markets_example :
    (pack_markets (replicate 64 0) (key 8 ∷ key 9 ∷ []) >>= λ packed. unpack_market packed 1)
    ≡ ok (key 9)
unpack_market-pack_markets_example =
    unpack_market-pack_markets (key 8 ∷ key 9 ∷ []) (replicate 64 0) 1 (refl, (refl, tt))
      (omega arith) refl

write_pool_lem_example :
    write_pool header (key 8 ∷ []) (mint ∷ []) (replicate 213 0)
    ≡ ok (
        header_bytes header (
          concat (key 8 ∷ []) (
            concat
              (mints (mint ∷ []))
              (drop (32 * 1) (drop (32 * 1) (drop 117 (replicate 213 0)))))))
write_pool_lem_example =
    write_pool_lem header (key 8 ∷ []) (mint ∷ []) (replicate 213 0)
      (IsHeader-IsSized header header-IsHeader) (refl, tt) (refl, tt) (omega arith)

redeem_agrees_example :
    (c : Call) × (a : RedeemAccounts) × (rest : List AccountInfo) × (Client.redeem spl_key clock_key
        program_key mint_key pool_key
        (vault_key ∷ [])
        owner_key
        source_key
        (target_key ∷ [])
        pool_key
        40
      ≡ ok c)
    × (Unpack.unpack c.bytes ≡ ok (Instruction.redeem pool_key 40))
    × (redeem_accounts runtime program_key (map as_info c.accounts) (start 2000)
        ≡ ok ((a, rest), start 2000))
    × (a.clock.key ≡ clock_key)
    × (a.mint.key ≡ mint_key)
    × (a.pool.key ≡ pool_key)
    × (a.source_pool_token_owner.key ≡ owner_key)
    × (a.source_pool_token_owner.is_signer ≡ true)
    × (a.source_pool_token.key ≡ source_key)
    × (next_accounts 1 rest ≡ ok (infos (vault_key ∷ []), infos (target_key ∷ [])))
    × (next_accounts 1 (infos (target_key ∷ [])) ≡ ok (infos (target_key ∷ []), []))
redeem_agrees_example =
    redeem_agrees runtime program_key (start 2000) clock_key mint_key pool_key owner_key source_key
      (vault_key ∷ []) (target_key ∷ []) pool_key 40 refl (omega arith) refl
