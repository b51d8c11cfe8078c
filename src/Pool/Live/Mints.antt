-- ===== src/Pool/Live/Mints.antt =====
-- A mint of pool tokens (`mint_to`, signed with the pool's seed) succeeds.
use bonfida_bot.Prelude.{sym, subst, ap, ◌∙◌, ℕ, ◌+◌, ◌^◌, ◌<◌, ◌≡◌, ◌≢◌, [], ◌∷◌}
use bonfida_bot.Outcome.{ok}
use bonfida_bot.Bytes.{Bytes}
use bonfida_bot.State.{Pubkey}
use bonfida_bot.Runtime.{Runtime, AccountInfo, AccountState, TokenAccount, World}
use bonfida_bot.Runtime.Progress.{step_lift, invoke_signed_lem}
use bonfida_bot.Runtime.Tokens.{IsMinting, IsAccount, IsMint, Signs, Holding, Others}
use bonfida_bot.Processor.Common.{mint_pool_tokens}

-- The mint can be minted from by `authority`, and has this supply.
pub record IsMintOf (rt : Runtime) (Usable : AccountState → Type 0)
    (Authority : AccountState → Pubkey → Type 0) (w : World) (mint : AccountInfo)
    (authority : Pubkey) (supply : ℕ) : Type 0 where
  pub mint_account : IsMint rt Usable w.ledger mint (record { supply = supply })
  pub minted_by : Authority (w.ledger mint.key) authority

-- Another ledger with the same mint.
pub IsMintOf-same :
    (rt : Runtime) (Usable : AccountState → Type 0) (Authority : AccountState → Pubkey → Type 0)
    (w w' : World) (mint : AccountInfo) (authority : Pubkey) (supply : ℕ)
    → w'.ledger mint.key ≡ w.ledger mint.key
    → IsMintOf rt Usable Authority w mint authority supply
    → IsMintOf rt Usable Authority w' mint authority supply
IsMintOf-same rt Usable Authority w w' mint authority supply same h = record {
  mint_account = record {
    unpacked = ap (λ x. rt.unpack_mint x.bytes) same ∙ h.mint_account.unpacked;
    writable = h.mint_account.writable;
    usable = subst Usable (sym same) h.mint_account.usable;
  };
  minted_by = subst (λ x. Authority x authority) (sym same) h.minted_by;
}

module _ {rt : Runtime} {program_id : Pubkey} {Usable : AccountState → Type 0}
    {Authority : AccountState → Pubkey → Type 0}
    (minting : IsMinting rt program_id Usable Authority) (spl mint pool : AccountInfo)
    (pool_seed : Bytes) (is_token : spl.key ≡ rt.spl_token_id)
    (signs : rt.create_program_address (pool_seed ∷ []) program_id ≡ ok pool.key) where
  pub mint_pool_tokens_live :
      (to : AccountInfo) (u : TokenAccount) (n supply : ℕ) (w : World)
      → IsMintOf rt Usable Authority w mint pool.key supply
      → IsAccount rt Usable w.ledger to u
      → mint.key ≢ to.key
      → u.mint ≡ mint.key
      → supply + n < 2 ^ 64
      → u.amount + n < 2 ^ 64
      → (w' : World) × (mint_pool_tokens rt spl mint to pool mint.key to.key pool_seed n w
          ≡ ok (tt, w'))
        × IsMintOf rt Usable Authority w' mint pool.key (supply + n)
        × Holding rt w'.ledger to.key u (u.amount + n)
        × Usable (w'.ledger to.key)
        × Others w.ledger w'.ledger mint.key to.key
  unfolding mint_pool_tokens
  mint_pool_tokens_live to u n supply w h hu apart same_mint room room' =
      let (i, ledger', built, runs, more, holds, usable, usable', by, others) =
        minting.mints spl mint to pool ((pool_seed ∷ []) ∷ []) n w.ledger
          (record { supply = supply }) u is_token h.mint_account hu apart same_mint h.minted_by
          (Signs.by_seed pool_seed signs) room room' in
      (
        _,
        step_lift (rt.mint_to spl.key mint.key to.key pool.key [] n) _ w built
            (invoke_signed_lem rt i _ _ w ledger' runs),
        record {
          mint_account = record {
            unpacked = more;
            writable = h.mint_account.writable;
            usable = usable;
          };
          minted_by = by;
        },
        holds,
        usable',
        others,
      )
