-- ===== src/Engine/Prefix/Find.antt =====
-- `lookup` of llm_serve/engine/prefix_cache.py (`find`).
use llm_serve.Prelude.{
  ℕ, zero, suc, ◌+◌, ◌-◌, ◌*◌, ◌/◌, ◌≤◌, ◌<◌, ◌≡◌, refl, ap, ◌∙◌, sym, inl, inr, true, List, [],
  ◌∷◌, length, take, take_all, length-take, count, count-take-drop, Str, leb, if◌then◌else◌,
  DistinctKeys, values, Bool-cases, ok, arith,
}
use llm_serve.Engine.Blocks.{BlockManager}
use llm_serve.Engine.Blocks.Pool.{Pool-ext}
use llm_serve.Engine.Blocks.Invariant.{IsValid}
use llm_serve.Engine.Prefix.{
  Shared, PrefixCache, PrefixMatch, find, trim, drop_last, hash_from, hash_blocks, prefix_seed,
  is_empty, match_blocks,
}
use llm_serve.Engine.Prefix.Order.{
  Reordered, match_blocks_lem, prefix_hits, length-prefix_hits-le, prefix_hits-values,
}

-- How often the entries pin a block.
abbrev pub pins : Shared → ℕ → ℕ
pins s b = count b (values s.cache.entries)

-- The manager is valid with the entries as the only pins, and no hash stands twice.
pub record IsPinned (s : Shared) : Type 0 where
  pub manager : IsValid s.blocks (pins s)
  pub distinct : DistinctKeys s.cache.entries

-- The pins of a valid manager may be counted another way.
pub IsValid-ext :
    {m : BlockManager} {p q : ℕ → ℕ} → ((b : ℕ) → p b ≡ q b) → IsValid m p → IsValid m q
IsValid-ext e v = record {
  positive = v.positive;
  pool = Pool-ext v.pool (λ b. omega (arith, e b));
  distinct = v.distinct;
  fits = v.fits;
}

drop_last-take : (xs : List ℕ) → drop_last xs ≡ take (length xs - 1) xs
unfolding drop_last
drop_last-take [] = ground arith
drop_last-take (b ∷ []) = refl
drop_last-take (b ∷ c ∷ rest) = rw (drop_last-take (c ∷ rest)) (ground arith)

mul-div_self : (k d : ℕ) → 0 < d → (k * d - 1) / d ≡ k - 1
mul-div_self zero d p = grind arith
mul-div_self (suc k) d p = grind arith

le-div_pred : (k n d : ℕ) → 0 < d → k * d < n → k ≤ (n - 1) / d
le-div_pred k n d p h = grind arith

pub le-mul_of_le-div : (k n d : ℕ) → 0 < d → k ≤ n / d → k * d ≤ n
le-mul_of_le-div k n d p h = grind arith

-- At most the blocks that end before the last token of the prompt.
trim_lem :
    (xs : List ℕ) (size n : ℕ)
    → 0 < size
    → length xs ≤ n / size
    → trim xs size n ≡ take ((n - 1) / size) xs
unfolding trim
trim_lem [] size n p h = sym (take_all ((n - 1) / size) [] (omega arith))
trim_lem (x ∷ xs) size n p h = elim (Bool-cases (leb n (length (x ∷ xs) * size))) [
  | inl e ↦
      let bound = le-mul_of_le-div (length (x ∷ xs)) n size p h in
      let all : n ≡ length (x ∷ xs) * size = ground arith in
      let last : (n - 1) / size ≡ length (x ∷ xs) - 1 =
        ap (λ k. (k - 1) / size) all ∙ mul-div_self (length (x ∷ xs)) size p in
      rw (e, last) (drop_last-take (x ∷ xs))
  | inr e ↦ rw e (
      sym (
        take_all ((n - 1) / size) (x ∷ xs) (le-div_pred (length (x ∷ xs)) n size p (ground arith))))
]

module _ (digest : Str → Str) where
  length-hash_from :
      (tokens : List ℕ) (size i n : ℕ) (parent : Str)
      → length (hash_from digest tokens size i n parent) ≡ n
  unfolding hash_from
  length-hash_from tokens size i zero parent = refl
  length-hash_from tokens size i (suc n) parent = ap suc (length-hash_from tokens size (suc i) n _)

  -- The hashes of the full blocks of a prompt.
  abbrev pub hashes : List ℕ → ℕ → List Str
  hashes tokens size = hash_from digest tokens size 0 (length tokens / size) prefix_seed

  -- The blocks that the cache offers for a prompt: the longest run of cached blocks from its start
  -- that leaves the last token to be computed.
  abbrev pub offered : Shared → List ℕ → List ℕ
  offered s tokens =
      let size = s.blocks.block_size in
      take ((length tokens - 1) / size) (prefix_hits (hashes tokens size) s.cache.entries)

  abbrev pub found_match : Shared → List ℕ → PrefixMatch
  found_match s tokens = record {
    block_ids = offered s tokens;
    num_cached_tokens = length (offered s tokens) * s.blocks.block_size;
    num_prompt_tokens = length tokens;
  }

  pub hash_blocks_lem :
      (tokens : List ℕ) (size : ℕ)
      → 0 < size
      → hash_blocks digest tokens size ≡ ok (hashes tokens size)
  unfolding hash_blocks
  hash_blocks_lem tokens size h = ground arith

  -- The cache after a search: its entries in the new order, and its statistics.
  abbrev pub searched : Shared → List ℕ → PrefixCache
  searched s tokens =
      let hs = hashes tokens s.blocks.block_size in
      record (s.cache) {
        entries = (match_blocks hs s.cache.entries).1;
        queries = s.cache.queries + 1;
        queried_blocks = s.cache.queried_blocks + length hs;
        hit_blocks = s.cache.hit_blocks + length (offered s tokens);
        queries_with_hit =
            s.cache.queries_with_hit + (if is_empty (offered s tokens) then 0 else 1);
      }

  module _ (s : Shared) (tokens : List ℕ) (v : IsPinned s) where
    -- On a shared state where the cache entries are the pins of a valid block manager, `lookup` of
    -- an enabled cache returns the longest run of cached blocks from the start of the prompt that
    -- leaves the last token of the prompt uncached, leaves the block manager as it is, and changes
    -- the entries only in their order and the statistics by this query.
    pub find_lem :
        s.cache.enabled ≡ true
        → (find digest tokens s
            ≡ (ok (found_match s tokens), record s { cache = searched s tokens }))
          × Reordered s.cache.entries (searched s tokens).entries
    unfolding find
    find_lem on =
        let size = s.blocks.block_size in
        let positive = v.manager.positive in
        let hs = hashes tokens size in
        let hashed = hash_blocks_lem tokens size positive in
        let (found, order) = match_blocks_lem hs s.cache.entries v.distinct in
        let few : length (prefix_hits hs s.cache.entries) ≤ length tokens / size = omega (
          arith,
          length-prefix_hits-le hs s.cache.entries,
          length-hash_from tokens size 0 (length tokens / size) prefix_seed,
        ) in
        let trimmed : trim (match_blocks hs s.cache.entries).0 size (length tokens)
            ≡ offered s tokens =
          ap (λ xs. trim xs size (length tokens)) found
          ∙ trim_lem (prefix_hits hs s.cache.entries) size (length tokens) positive few in
        (ground (arith, on, hashed, trimmed), order)

    pub offered-le : length (offered s tokens) ≤ (length tokens - 1) / s.blocks.block_size
    offered-le = omega (
      arith,
      length-take ((length tokens - 1) / s.blocks.block_size)
          (prefix_hits (hashes tokens s.blocks.block_size) s.cache.entries),
    )

    -- What it offers is pinned, and is shorter than the prompt.
    pub offered-pinned : (b : ℕ) → 0 < count b (offered s tokens) → 0 < pins s b
    offered-pinned b h =
        let n = (length tokens - 1) / s.blocks.block_size in
        let hs = hashes tokens s.blocks.block_size in
        let parts = count-take-drop b n (prefix_hits hs s.cache.entries) in
        prefix_hits-values hs s.cache.entries b (omega arith)

    pub offered-lt :
        0 < length tokens → length (offered s tokens) * s.blocks.block_size < length tokens
    offered-lt h =
        let fits =
          le-mul_of_le-div (length (offered s tokens)) (length tokens - 1) s.blocks.block_size
            v.manager.positive offered-le in
        omega arith
