-- ===== src/Pool/Live/Access.antt =====
-- Reads and writes of an account that holds a pool: they succeed.
use bonfida_bot.Prelude.{
  List, ◌∷◌, ℕ, ◌*◌, ◌+◌, ◌≤◌, ◌≡◌, ◌≢◌, refl, sym, ap, ◌∙◌, true, [], ◌++◌, arith, length, take,
  drop, some, append-nil, take-append-drop, length-take, length-drop, drop-drop, length-append,
  subst, replicate, Bool-cases, inl, inr, not, ◌∷◌,
}
use bonfida_bot.Outcome
use bonfida_bot.Runtime.Progress.{step_lift}
use bonfida_bot.Outcome.{Result, err, panicked, fail_if, invalid_argument, ok}
use bonfida_bot.Bytes.{eq_bytes, eq_of_eq_bytes, Bytes, index, slice, slice_middle, eq_bytes_self}
use bonfida_bot.State.{PoolAsset, Pubkey, PoolHeader, header_len, is_initialized, uninitialized}
use bonfida_bot.State.Layout.{IsSized, length-header_bytes}
use bonfida_bot.Runtime.{Runtime, AccountInfo, World, put_data}
use bonfida_bot.Processor.Common.{
  next_accounts, mint_supply, read_header, write_header, asset_bytes, with_tail,
}
use bonfida_bot.Processor.Headers.{read_header_lem, write_header_lem, put_data_self, with_tail_lem}
use bonfida_bot.Pool.Frame.{put_data_elsewhere}
use bonfida_bot.Pool.Front.{drop-header}
use bonfida_bot.Processor.Redeem.{reset_pool}
use bonfida_bot.Processor.Redeem.Reset.{reset-IsSized}
use bonfida_bot.Utils.{fill_slice, check_pool_key}
use bonfida_bot.Pool.Moves.{HoldsPool}
use bonfida_bot.Pool.Step.{Pool}
use bonfida_bot.Pool.Writes.{write_header-Holds, reset_pool-Holds}

-- The pool after all its tokens were redeemed.
abbrev pub emptied_pool : Pool → Pool
emptied_pool p = record {
  header = record p.header { status = uninitialized };
  rest = replicate (length p.rest) 0;
}

checked_key :
    (r : Result Pubkey) (key : Pubkey)
    → Outcome.◌>>=◌ r (λ expected. fail_if (not (eq_bytes expected key)) invalid_argument) ≡ ok tt
    → r ≡ ok key
checked_key panicked key h = cc
checked_key (err e) key h = cc
checked_key (ok expected) key h = elim (Bool-cases (eq_bytes expected key)) [
  | inl same ↦ ap ok (eq_of_eq_bytes expected key same)
  | inr apart ↦ let h' = rw apart at h in cc
]

index_tail : (n : ℕ) (xs : Bytes) → n ≤ length xs → index n (length xs) xs ≡ ok (drop n xs)
index_tail n xs fits =
    let whole : xs ≡ take n xs ++ (drop n xs ++ []) =
      sym (take-append-drop n xs) ∙ ap (λ l. take n xs ++ l) (sym (append-nil _)) in
    let read : slice n (length xs) xs ≡ some (drop n xs) =
      ap (slice n (length xs)) whole
      ∙ slice_middle (take n xs) (drop n xs) [] n (length xs) (omega (arith, length-take n xs))
          (omega (arith, length-drop n xs)) in
    rw read refl

module _ {program_id : Pubkey} (pool : AccountInfo) (p : Pool) (w : World)
    (h : HoldsPool program_id pool.key p w) where
  size : length (w.ledger pool.key).bytes ≡ header_len + length p.rest
  size = ap length h.held.content ∙ length-header_bytes p.header p.rest h.sized

  -- An initialized header is read.
  pub read_header_held : is_initialized p.header ≡ true → read_header pool w ≡ ok (p.header, w)
  read_header_held there =
      read_header_lem pool p.header p.rest w h.sized h.held.content ∙ rw there refl

  -- What follows the markets is read.
  pub asset_bytes_held :
      32 * p.header.number_of_markets ≤ length p.rest
      → asset_bytes pool p.header w ≡ ok (drop (32 * p.header.number_of_markets) p.rest, w)
  unfolding asset_bytes
  asset_bytes_held fits =
      let n = 32 * p.header.number_of_markets in
      let behind : drop (header_len + n) (w.ledger pool.key).bytes ≡ drop n p.rest =
        sym (drop-drop n header_len (w.ledger pool.key).bytes)
        ∙ ap (drop n) (ap (drop header_len) h.held.content ∙ drop-header p.header p.rest h.sized) in
      rw (index_tail (header_len + n) (w.ledger pool.key).bytes (omega (arith, size)), behind) refl

  -- A header is written, and no other account changes.
  pub write_header_held :
      (h' : PoolHeader)
      → IsSized h'
      → (w' : World) × (write_header pool h' w ≡ ok (tt, w'))
        × HoldsPool program_id pool.key (record { header = h'; rest = p.rest }) w'
        × ((k : Pubkey) → k ≢ pool.key → w'.ledger k ≡ w.ledger k)
  write_header_held h' v =
      let written = write_header_lem pool h' w v (omega (arith, size)) in
      (
        _,
        written,
        record {
          sized = v;
          held = write_header-Holds pool p.header h' p.rest w _ h.held h.sized v written;
        },
        λ k other. put_data_elsewhere k pool.key _ w.ledger other,
      )

  -- The pool is emptied, and no other account changes.
  pub reset_pool_held :
      (w' : World) × (reset_pool pool p.header w ≡ ok (tt, w'))
      × HoldsPool program_id pool.key (emptied_pool p) w'
      × ((k : Pubkey) → k ≢ pool.key → w'.ledger k ≡ w.ledger k)
  unfolding reset_pool
  reset_pool_held =
      let old = (w.ledger pool.key).bytes in
      let new = take header_len old ++ fill_slice (drop header_len old) 0 in
      let w1 : World = record w { ledger = put_data pool.key new w.ledger } in
      let filled : with_tail header_len (λ tail. ok (fill_slice tail 0)) old ≡ ok new =
        with_tail_lem header_len (λ tail. ok (fill_slice tail 0)) old (omega (arith, size)) in
      let long : header_len ≤ length (w1.ledger pool.key).bytes =
        subst (λ b. header_len ≤ length b) (sym (put_data_self pool.key new w.ledger))
          (omega (
            arith,
            size,
            length-take header_len old,
            length-append (take header_len old) (fill_slice (drop header_len old) 0),
          )) in
      let h' = record p.header { status = uninitialized } in
      let written = write_header_lem pool h' w1 (reset-IsSized p.header h.sized) long in
      let run : reset_pool pool p.header w ≡ _ = (rw filled refl) ∙ written in
      (
        _,
        run,
        record {
          sized = reset-IsSized p.header h.sized;
          held = reset_pool-Holds pool p.header p.rest w _ h.held h.sized run;
        },
        λ k other.
            put_data_elsewhere k pool.key _ w1.ledger other
            ∙ put_data_elsewhere k pool.key new w.ledger other,
      )

pub HoldsPool-same :
    (program_id key : Pubkey) (p : Pool) (w w' : World)
    → w'.ledger key ≡ w.ledger key
    → HoldsPool program_id key p w
    → HoldsPool program_id key p w'
HoldsPool-same program_id key p w w' same h = record {
  sized = h.sized;
  held = record {
    owner = ap (λ s. s.owner) same ∙ h.held.owner;
    content = ap (λ s. s.bytes) same ∙ h.held.content;
  };
}

-- What is read of the mint.
pub mint_supply_lem :
    (rt : Runtime) (mint : AccountInfo) (w : World) (supply : ℕ)
    → rt.unpack_mint (w.ledger mint.key).bytes ≡ ok (record { supply = supply })
    → mint_supply rt mint w ≡ ok (supply, w)
mint_supply_lem rt mint w supply e = step_lift (rt.unpack_mint (w.ledger mint.key).bytes) _ w e refl

-- The seed that was checked is the pool's.
pub check_pool_key-eq-ok :
    (rt : Runtime) (program_id key : Pubkey) (pool_seed : Bytes)
    → check_pool_key rt program_id key pool_seed ≡ ok tt
    → rt.create_program_address (pool_seed ∷ []) program_id ≡ ok key
unfolding check_pool_key
check_pool_key-eq-ok rt program_id key pool_seed h =
    checked_key (rt.create_program_address (pool_seed ∷ []) program_id) key h

-- And the pool's seed is accepted.
pub check_pool_key_lem :
    (rt : Runtime) (program_id key : Pubkey) (pool_seed : Bytes)
    → rt.create_program_address (pool_seed ∷ []) program_id ≡ ok key
    → check_pool_key rt program_id key pool_seed ≡ ok tt
unfolding check_pool_key
check_pool_key_lem rt program_id key pool_seed h =
    ap
      (λ (r : Result Pubkey).
        Outcome.◌>>=◌ r (λ expected. fail_if (not (eq_bytes expected key)) invalid_argument))
      h
    ∙ ap (λ same. fail_if (not same) invalid_argument) (eq_bytes_self key)

-- The accounts for the assets are taken.
pub next_accounts_lem :
    (assets : List PoolAsset) (infos rest : List AccountInfo)
    → length infos ≡ length assets
    → next_accounts (length assets) (infos ++ rest) ≡ ok (infos, rest)
next_accounts_lem [] [] rest e = refl
next_accounts_lem [] (x ∷ infos) rest e = absurd (omega arith)
next_accounts_lem (x ∷ assets) [] rest e = absurd (omega arith)
next_accounts_lem (x ∷ assets) (info ∷ infos) rest e =
    rw (next_accounts_lem assets infos rest (omega arith)) refl
