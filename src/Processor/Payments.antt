-- ===== src/Processor/Payments.antt =====
-- What the handlers' loops over the pool's assets have in common, where tokens move between the
-- pool's account for an asset and an account of the user's.
use bonfida_bot.Prelude.{
  length, arith, refl, ℕ, ◌*◌, ◌/◌, ◌≡◌, ◌≢◌, sym, subst, ap, ◌∙◌, List, [], ◌∷◌, All,
}
use bonfida_bot.State.{Pubkey, PoolAsset}
use bonfida_bot.Runtime.{Runtime, Ledger, AccountInfo, AccountState, TokenAccount}
use bonfida_bot.Runtime.Tokens.{IsAccount, Others}

-- The share of the holding that stands for `amount` of the `supply` tokens, rounded down.
abbrev pub share : ℕ → ℕ → ℕ → ℕ
share amount held supply = amount * held / supply

-- The key is none of the accounts'.
abbrev pub Apart : Pubkey → List AccountInfo → Type 0
Apart k infos = All (λ info. k ≢ info.key) infos

-- `P` holds for each asset with its two accounts, and all these accounts differ from those that
-- follow.
pub data Separate (P : PoolAsset → AccountInfo → AccountInfo → Type 0)
    : List PoolAsset → List AccountInfo → List AccountInfo → Type 0 where
  no_asset : Separate P [] [] []
  asset_then :
      (asset : PoolAsset) (a b : AccountInfo) (assets : List PoolAsset)
      (froms tos : List AccountInfo)
      → P asset a b
      → Apart a.key froms
      → Apart a.key tos
      → Apart b.key froms
      → Apart b.key tos
      → Separate P assets froms tos
      → Separate P (asset ∷ assets) (a ∷ froms) (b ∷ tos)

-- `P` holds for the accounts at each place.
pub data Each (P : AccountInfo → AccountInfo → Type 0)
    : List AccountInfo → List AccountInfo → Type 0 where
  no_pair : Each P [] []
  pair_then :
      (a b : AccountInfo) (froms tos : List AccountInfo)
      → P a b
      → Each P froms tos
      → Each P (a ∷ froms) (b ∷ tos)

pub length-Separate :
    (P : PoolAsset → AccountInfo → AccountInfo → Type 0) (assets : List PoolAsset)
    (tos froms : List AccountInfo)
    → Separate P assets tos froms
    → (length tos ≡ length assets) × (length froms ≡ length assets)
length-Separate P [] _ _ Separate.no_asset = (refl, refl)
length-Separate P (asset ∷ assets) _ _ (Separate.asset_then _ to from _ tos froms h a b c d rest) =
    let both = length-Separate P assets tos froms rest in (omega arith, omega arith)

-- What holds for each asset, and for its accounts, gives what holds for each asset.
pub Separate-with :
    (P R : PoolAsset → AccountInfo → AccountInfo → Type 0) (Q : AccountInfo → AccountInfo → Type 0)
    → ((asset : PoolAsset) (a b : AccountInfo) → P asset a b → Q a b → R asset a b)
    → (assets : List PoolAsset) (froms tos : List AccountInfo) → Separate P assets froms tos
    → Each Q froms tos
    → Separate R assets froms tos
Separate-with P R Q f _ _ _ Separate.no_asset both = Separate.no_asset
Separate-with P R Q f _ _ _ (Separate.asset_then asset a b assets froms tos h w x y z rest)
      (Each.pair_then _ _ _ _ q more) =
    Separate.asset_then asset a b assets froms tos (f asset a b h q) w x y z
      (Separate-with P R Q f assets froms tos rest more)

-- Or for its accounts.
pub Each-with :
    (P : PoolAsset → AccountInfo → AccountInfo → Type 0) (Q R : AccountInfo → AccountInfo → Type 0)
    → ((asset : PoolAsset) (a b : AccountInfo) → P asset a b → Q a b → R a b)
    → (assets : List PoolAsset) (froms tos : List AccountInfo) → Separate P assets froms tos
    → Each Q froms tos
    → Each R froms tos
Each-with P Q R f _ _ _ Separate.no_asset both = Each.no_pair
Each-with P Q R f _ _ _ (Separate.asset_then asset a b assets froms tos h w x y z rest)
      (Each.pair_then _ _ _ _ q more) =
    Each.pair_then a b froms tos (f asset a b h q) (Each-with P Q R f assets froms tos rest more)

-- The ledgers agree on the accounts.
abbrev pub SameAt : Ledger → Ledger → List AccountInfo → Type 0
SameAt ledger ledger' infos = All (λ info. ledger' info.key ≡ ledger info.key) infos

pub SameAt-self : (ledger : Ledger) (infos : List AccountInfo) → SameAt ledger ledger infos
SameAt-self ledger [] = tt
SameAt-self ledger (info ∷ infos) = (refl, SameAt-self ledger infos)

pub Others-SameAt :
    (ledger ledger' : Ledger) (a b : Pubkey) (infos : List AccountInfo)
    → Others ledger ledger' a b
    → Apart a infos
    → Apart b infos
    → SameAt ledger ledger' infos
Others-SameAt ledger ledger' a b [] others x y = tt
Others-SameAt ledger ledger' a b (info ∷ infos) others (x, xs) (y, ys) = (
  others info.key (λ e. x (sym e)) (λ e. y (sym e)),
  Others-SameAt ledger ledger' a b infos others xs ys,
)

module _ (ledger ledger' : Ledger) where
  pub Separate-same :
      (P Q : PoolAsset → AccountInfo → AccountInfo → Type 0)
      → ((asset : PoolAsset) (a b : AccountInfo)
          → ledger' a.key ≡ ledger a.key
          → ledger' b.key ≡ ledger b.key
          → P asset a b
          → Q asset a b)
      → (assets : List PoolAsset) (froms tos : List AccountInfo) → Separate P assets froms tos
      → SameAt ledger ledger' froms
      → SameAt ledger ledger' tos
      → Separate Q assets froms tos
  Separate-same P Q keep _ _ _ Separate.no_asset sa sb = Separate.no_asset
  Separate-same P Q keep _ _ _ (Separate.asset_then asset a b assets froms tos h w x y z rest)
        (sa, sas) (sb, sbs) =
      Separate.asset_then asset a b assets froms tos (keep asset a b sa sb h) w x y z
        (Separate-same P Q keep assets froms tos rest sas sbs)

  pub Each-same :
      (P Q : AccountInfo → AccountInfo → Type 0)
      → ((a b : AccountInfo)
          → ledger' a.key ≡ ledger a.key
          → ledger' b.key ≡ ledger b.key
          → P a b
          → Q a b)
      → (froms tos : List AccountInfo) → Each P froms tos
      → SameAt ledger ledger' froms
      → SameAt ledger ledger' tos
      → Each Q froms tos
  Each-same P Q keep _ _ Each.no_pair sa sb = Each.no_pair
  Each-same P Q keep _ _ (Each.pair_then a b froms tos h rest) (sa, sas) (sb, sbs) =
      Each.pair_then a b froms tos (keep a b sa sb h) (Each-same P Q keep froms tos rest sas sbs)

  pub IsAccount-same :
      (rt : Runtime) (Usable : AccountState → Type 0) (info : AccountInfo) (t : TokenAccount)
      → ledger' info.key ≡ ledger info.key
      → IsAccount rt Usable ledger info t
      → IsAccount rt Usable ledger' info t
  IsAccount-same rt Usable info t same h = record {
    unpacked = ap (λ s. rt.unpack_account s.bytes) same ∙ h.unpacked;
    writable = h.writable;
    usable = subst Usable (sym same) h.usable;
  }
