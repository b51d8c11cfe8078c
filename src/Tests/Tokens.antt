-- ===== src/Tests/Tokens.antt =====
-- A token program to run the handlers on: an account's data begin with the amount, or a mint's with
-- the supply, as one number, and a call moves, burns or mints tokens on the ledger. No code of the
-- program is modelled here.
use bonfida_bot.Prelude.{
  ℕ, ◌+◌, ◌-◌, ◌≡◌, ◌≢◌, refl, sym, ap, ◌∙◌, List, [], ◌∷◌, take, drop, true, false, if◌then◌else◌,
  ◌==◌, some,
}
use bonfida_bot.Outcome.{ok, err, Result, external}
use bonfida_bot.Bytes.{Bytes}
use bonfida_bot.State.{Pubkey}
use bonfida_bot.Runtime.{
  Runtime, Ledger, AccountState, AccountMeta, Instruction, TokenAccount, Mint, put_data,
}
use bonfida_bot.Runtime.Tokens.{IsToken, IsMinting}
use bonfida_bot.Processor.Common.{bonfida_fee}
use bonfida_bot.Processor.Headers.{put_data_self}
use bonfida_bot.Pool.Frame.{put_data_elsewhere}
use bonfida_bot.Pool.Front.{ok-inj}
use bonfida_bot.Tests.Fixtures.{key, runtime, spl_key}
use text.Mathlib.Text.{◌==◌ as str_eq}

abbrev unpack_tokens : Bytes → Result TokenAccount
unpack_tokens [] = err (external 0)
unpack_tokens (n ∷ rest) = ok (record {
  mint = take 32 rest;
  owner = drop 32 rest;
  amount = n;
  has_delegate = false;
  has_close_authority = false;
})

abbrev unpack_supply : Bytes → Result Mint
unpack_supply [] = err (external 0)
unpack_supply (n ∷ rest) = ok (record { supply = n })

abbrev on_first : (ℕ → ℕ) → Bytes → Bytes
on_first f [] = []
on_first f (n ∷ rest) = f n ∷ rest

unfoldable pub change : Pubkey → (ℕ → ℕ) → Ledger → Ledger
change key f ledger = put_data key (on_first f (ledger key).bytes) ledger

-- Operation 3 moves tokens from `a` to `b`, 8 burns tokens of `a` from the mint `b`, and 7 mints
-- tokens of the mint `a` for `b`.
abbrev execute : List AccountMeta → Bytes → Ledger → Result Ledger
execute (a ∷ b ∷ c ∷ []) (operation ∷ n ∷ []) ledger =
    if operation == 3
    then ok (change b.pubkey (λ m. m + n) (change a.pubkey (λ m. m - n) ledger))
    else if operation == 8
    then ok (change b.pubkey (λ m. m - n) (change a.pubkey (λ m. m - n) ledger))
    else ok (change b.pubkey (λ m. m + n) (change a.pubkey (λ m. m + n) ledger))
execute _ _ ledger = err (external 0)

abbrev token_instruction : ℕ → Pubkey → Pubkey → Pubkey → ℕ → Instruction
token_instruction operation a b authority n = record {
  program_id = spl_key;
  accounts =
      record { pubkey = a; is_signer = false; is_writable = true }
      ∷ record { pubkey = b; is_signer = false; is_writable = true }
      ∷ record { pubkey = authority; is_signer = true; is_writable = false }
      ∷ [];
  bytes = operation ∷ n ∷ [];
}

abbrev pub token_runtime : Runtime
token_runtime = record runtime {
  from_str = λ s. some (if str_eq s bonfida_fee then key 9 else key 14);
  invoke_signed = λ i _ _ ledger. execute i.accounts i.bytes ledger;
  unpack_account = unpack_tokens;
  unpack_mint = unpack_supply;
  mint_to = λ _ mint to authority _ n. ok (token_instruction 7 mint to authority n);
  transfer = λ _ from to authority _ n. ok (token_instruction 3 from to authority n);
  burn = λ _ from mint authority _ n. ok (token_instruction 8 from mint authority n);
}

abbrev pub Usable : AccountState → Type 0
Usable _ = Unit {0}

abbrev pub Authority : AccountState → Pubkey → Type 0
Authority _ _ = Unit {0}

tokens_on_first :
    (f : ℕ → ℕ) (bytes : Bytes) (t : TokenAccount)
    → unpack_tokens bytes ≡ ok t
    → unpack_tokens (on_first f bytes) ≡ ok (record t { amount = f t.amount })
tokens_on_first f [] t e = cc
tokens_on_first f (n ∷ rest) t e =
    ap (λ (x : TokenAccount). ok (record x { amount = f x.amount })) (ok-inj e)

supply_on_first :
    (f : ℕ → ℕ) (bytes : Bytes) (m : Mint)
    → unpack_supply bytes ≡ ok m
    → unpack_supply (on_first f bytes) ≡ ok (record { supply = f m.supply })
supply_on_first f [] m e = cc
supply_on_first f (n ∷ rest) m e = ap (λ (x : Mint). ok (record { supply = f x.supply })) (ok-inj e)

module _ (k : Pubkey) (f : ℕ → ℕ) (ledger : Ledger) where
  change_self : (change k f ledger k).bytes ≡ on_first f (ledger k).bytes
  unfolding change
  change_self = put_data_self k _ ledger

  change_elsewhere : (j : Pubkey) → j ≢ k → change k f ledger j ≡ ledger j
  unfolding change
  change_elsewhere j other = put_data_elsewhere j k _ ledger other

  change_tokens :
      (t : TokenAccount)
      → unpack_tokens (ledger k).bytes ≡ ok t
      → unpack_tokens (change k f ledger k).bytes ≡ ok (record t { amount = f t.amount })
  change_tokens t e = ap unpack_tokens change_self ∙ tokens_on_first f (ledger k).bytes t e

  change_supply :
      (m : Mint)
      → unpack_supply (ledger k).bytes ≡ ok m
      → unpack_supply (change k f ledger k).bytes ≡ ok (record { supply = f m.supply })
  change_supply m e = ap unpack_supply change_self ∙ supply_on_first f (ledger k).bytes m e

-- Two accounts are changed, which differ.
module _ (a b : Pubkey) (f g : ℕ → ℕ) (ledger : Ledger) (apart : a ≢ b) where
  first_bytes : (change b g (change a f ledger) a).bytes ≡ (change a f ledger a).bytes
  first_bytes = ap (λ s. s.bytes) (change_elsewhere b g (change a f ledger) a apart)

  second_bytes : (change a f ledger b).bytes ≡ (ledger b).bytes
  second_bytes = ap (λ s. s.bytes) (change_elsewhere a f ledger b (λ e. apart (sym e)))

  others : (k : Pubkey) → k ≢ a → k ≢ b → change b g (change a f ledger) k ≡ ledger k
  others k ka kb = change_elsewhere b g (change a f ledger) k kb ∙ change_elsewhere a f ledger k ka

pub token_runtime-IsToken : (program_id : Pubkey) → IsToken token_runtime program_id Usable
token_runtime-IsToken program_id = record {
  transfers =
      λ spl from to authority infos seeds n ledger t u is_token passed hf ht apart same_mint owned
          signs enough room.
        let f = λ (m : ℕ). m - n in
        let g = λ (m : ℕ). m + n in
        (
          _,
          _,
          refl,
          refl,
          ap unpack_tokens (first_bytes from.key to.key f g ledger apart)
              ∙ change_tokens from.key f ledger t hf.unpacked,
          change_tokens to.key g (change from.key f ledger) u
              (ap unpack_tokens (second_bytes from.key to.key f g ledger apart) ∙ ht.unpacked),
          tt,
          tt,
          others from.key to.key f g ledger apart,
        );
  burns =
      λ spl from mint authority seeds n ledger t m is_token hf hm apart same_mint owned signs enough
          issued.
        let f = λ (m : ℕ). m - n in
        (
          _,
          _,
          refl,
          refl,
          ap unpack_tokens (first_bytes from.key mint.key f f ledger apart)
              ∙ change_tokens from.key f ledger t hf.unpacked,
          change_supply mint.key f (change from.key f ledger) m
              (ap unpack_supply (second_bytes from.key mint.key f f ledger apart) ∙ hm.unpacked),
          others from.key mint.key f f ledger apart,
        );
}

pub token_runtime-IsMinting :
    (program_id : Pubkey) → IsMinting token_runtime program_id Usable Authority
token_runtime-IsMinting program_id = record {
  mints =
      λ spl mint to authority seeds n ledger m u is_token hm hu apart same_mint by signs room room'.
        let g = λ (x : ℕ). x + n in
        (
          _,
          _,
          refl,
          refl,
          ap unpack_supply (first_bytes mint.key to.key g g ledger apart)
              ∙ change_supply mint.key g ledger m hm.unpacked,
          change_tokens to.key g (change mint.key g ledger) u
              (ap unpack_tokens (second_bytes mint.key to.key g g ledger apart) ∙ hu.unpacked),
          tt,
          tt,
          tt,
          others mint.key to.key g g ledger apart,
        );
}
