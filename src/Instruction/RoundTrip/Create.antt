-- ===== src/Instruction/RoundTrip/Create.antt =====
-- The round trip of `Create`, whose two lists have no fixed place.
use bonfida_bot.Prelude.{
  ℕ, length, drop, length-append, ◌+◌, ◌*◌, ◌%◌, ◌^◌, ◌≤◌, ◌≡◌, refl, sym, ap, ◌∙◌, some, List, [],
  ◌∷◌, ◌++◌, append_assoc, arith,
}
use bonfida_bot.Outcome.{ok}
use bonfida_bot.Bytes.{
  Bytes, to_le_bytes, length-to_le_bytes, concat, length-concat, concat-append, concat_parts,
}
use bonfida_bot.Instruction.Defs.{Creation, create}
use bonfida_bot.Assets.Markets.{offset-keys}
use bonfida_bot.Instruction.Format.{amount_parts, creation_parts}
use bonfida_bot.Instruction.Unpack.{unpack_create, read_markets, read_amounts}
use bonfida_bot.Instruction.Range.{IsCreation}
use bonfida_bot.Instruction.RoundTrip.Reads.{
  read_seed-concat, read_le-concat, read_markets-concat, read_amounts-concat,
}

-- The first four fields of `Create`, which take 44 bytes.
abbrev fixed_parts : Creation → List Bytes
fixed_parts c =
    c.pool_seed
    ∷ to_le_bytes 2 (length c.markets % 2 ^ 16)
    ∷ to_le_bytes 8 c.fee_collection_period
    ∷ to_le_bytes 2 c.fee_ratio
    ∷ []

length-amount_parts :
    (amounts : List ℕ) → length (concat (amount_parts amounts) []) ≡ 8 * length amounts
length-amount_parts [] = omega arith
length-amount_parts (a ∷ amounts) = omega (
  arith,
  length-append (to_le_bytes 8 a) (concat (amount_parts amounts) []),
  length-to_le_bytes 8 a,
  length-amount_parts amounts,
)

-- What stands in front of the markets, and of the amounts.
abbrev fixed : Creation → Bytes
fixed c = concat (fixed_parts c) []

abbrev amounts : Creation → Bytes
amounts c = concat (amount_parts c.deposit_amounts) []

module _ (c : Creation) (v : IsCreation c) where
  length-fixed : length (fixed c) ≡ 44
  length-fixed =
      let two = length-to_le_bytes 2 (length c.markets % 2 ^ 16) in
      let eight = length-to_le_bytes 8 c.fee_collection_period in
      let two' = length-to_le_bytes 2 c.fee_ratio in
      let seed = v.pool_seed in omega (arith, length-concat (fixed_parts c) [])

  at_markets : concat (creation_parts c) [] ≡ fixed c ++ concat c.markets (amounts c)
  at_markets =
      concat-append (fixed_parts c) (concat (c.markets ++ amount_parts c.deposit_amounts) [])
      ∙ ap (λ l. fixed c ++ l) (concat_parts c.markets (amount_parts c.deposit_amounts) [])

  at_amounts : concat (creation_parts c) [] ≡ (fixed c ++ concat c.markets []) ++ amounts c
  at_amounts =
      at_markets
      ∙ ap (λ l. fixed c ++ l) (concat-append c.markets (amounts c))
      ∙ sym (append_assoc (fixed c) (concat c.markets []) (amounts c))

  markets_read :
      read_markets (length c.markets % 2 ^ 16) 44 (concat (creation_parts c) [])
      ≡ ok (c.markets, 44 + 32 * length c.markets)
  markets_read =
      let fits = v.number_of_markets in
      let low : length c.markets % 2 ^ 16 ≡ length c.markets = omega arith in
      ap (λ n. read_markets n 44 (concat (creation_parts c) [])) low
      ∙ ap (read_markets (length c.markets) 44) at_markets
      ∙ read_markets-concat c.markets (fixed c) (amounts c) 44 v.markets length-fixed

  amounts_read :
      read_amounts
        (length (concat (creation_parts c) []) + 2)
        (44 + 32 * length c.markets)
        (concat (creation_parts c) [])
      ≡ some c.deposit_amounts
  amounts_read =
      let n = length c.markets in
      let front = fixed c ++ concat c.markets [] in
      let fuel = length (concat (creation_parts c) []) + 2 in
      let keys = offset-keys c.markets v.markets in
      let fixed_size = length-fixed in
      let size : length front ≡ 44 + 32 * n =
        omega (arith, length-append (fixed c) (concat c.markets []), length-concat c.markets []) in
      let room : length c.deposit_amounts + 2 ≤ fuel = omega (
        arith,
        ap length at_amounts,
        length-append front (amounts c),
        length-amount_parts c.deposit_amounts,
      ) in
      ap (read_amounts fuel (44 + 32 * n)) at_amounts
      ∙ read_amounts-concat c.deposit_amounts front (44 + 32 * n) fuel v.deposit_amounts size
          (omega arith) room

  pub create_lem : unpack_create (concat (creation_parts c) []) ≡ ok (create c)
  unfolding unpack_create
  create_lem =
      let ps = creation_parts c in
      let n = length c.markets in
      let seed = v.pool_seed in
      let two = length-to_le_bytes 2 (n % 2 ^ 16) in
      let eight = length-to_le_bytes 8 c.fee_collection_period in
      rw (
        read_seed-concat c.pool_seed (drop 1 ps) [] v.pool_seed,
        read_le-concat ps [] 1 32 34 2 (n % 2 ^ 16) refl (omega arith) refl (omega arith),
        read_le-concat ps [] 2 34 42 8 c.fee_collection_period refl (omega arith) refl
            v.fee_collection_period,
        read_le-concat ps [] 3 42 44 2 c.fee_ratio refl (omega arith) refl v.fee_ratio,
        markets_read,
        amounts_read,
      )
