-- ===== src/Engine/Prefix/Add.antt =====
-- The whole `insert` of llm_serve/engine/prefix_cache.py (`add`).
use llm_serve.Prelude.{
  ℕ, ◌-◌, ◌≤◌, ◌<◌, ◌≡◌, refl, inl, inr, true, false, none, some, List, length, drop, count, Str,
  length-drop, Bool-cases, Option-cases, ok, arith, Dict,
}
use llm_serve.Engine.Blocks.Invariant.{owners}
use llm_serve.Engine.Prefix.{Shared, add, enforce_capacity}
use llm_serve.Engine.Prefix.Find.{IsPinned, pins, hashes, hash_blocks_lem}
use llm_serve.Engine.Prefix.Publish.{entered, Present, Keeps, Published, publish_lem}
use llm_serve.Engine.Prefix.Evict.{evicted, enforce_capacity_lem}

module _ (digest : Str → Str) (s : Shared) (tokens bs : List ℕ) where
  -- What `insert` does to the shared state.
  pub record Added : Type 0 where
    pub added : ℕ
    pub entries : Dict ℕ
    pub evictions : ℕ
    pub free : List ℕ
    pub counts : List ℕ
    pub run : add digest tokens bs s ≡ (ok added, evicted s entries evictions free counts)
    pub valid : IsPinned (evicted s entries evictions free counts)
    pub bounded :
        (limit : ℕ)
        → s.cache.max_entries ≡ some limit
        → s.cache.enabled ≡ true
        → length entries ≤ limit
    pub unlimited :
        s.cache.max_entries ≡ none
        → (free ≡ s.blocks.free_list)
          × Keeps s.cache.entries entries
          × (s.cache.enabled ≡ true → Present (hashes digest tokens s.blocks.block_size) bs entries)

  module _ (v : IsPinned s) (own : (b : ℕ) → 0 < count b bs → 0 < owners s.blocks (pins s) b) where
    add_off : s.cache.enabled ≡ false → Added
    unfolding add
    add_off off = record {
      added = 0;
      entries = s.cache.entries;
      evictions = s.cache.evictions;
      free = s.blocks.free_list;
      counts = s.blocks.ref_counts;
      run = ground arith;
      valid = v;
      bounded = λ limit e on. cc;
      unlimited = λ e. (refl, λ h b p. p, λ on. cc);
    }

    abbrev published : Published s (hashes digest tokens s.blocks.block_size) bs
    published = publish_lem (hashes digest tokens s.blocks.block_size) bs s v own

    add_unlimited : s.cache.enabled ≡ true → s.cache.max_entries ≡ none → Added
    unfolding add enforce_capacity
    add_unlimited on free =
        let p = published in
        record {
          added = p.added;
          entries = p.entries;
          evictions = s.cache.evictions;
          free = s.blocks.free_list;
          counts = p.counts;
          run = ground (
            arith,
            on,
            free,
            hash_blocks_lem digest tokens s.blocks.block_size v.manager.positive,
            p.run,
          );
          valid = p.valid;
          bounded = λ limit e on. cc;
          unlimited = λ e. (refl, p.keeps, λ on. p.present);
        }

    add_limited : (limit : ℕ) → s.cache.enabled ≡ true → s.cache.max_entries ≡ some limit → Added
    unfolding add
    add_limited limit on some_limit =
        let p = published in
        let q = enforce_capacity_lem (entered s p.entries p.counts) limit some_limit p.valid in
        record {
          added = p.added;
          entries = drop (length p.entries - limit) p.entries;
          evictions = q.evictions;
          free = q.free;
          counts = q.counts;
          run = ground (
            arith,
            on,
            hash_blocks_lem digest tokens s.blocks.block_size v.manager.positive,
            p.run,
            q.result,
          );
          valid = q.valid;
          bounded = λ l e on. ground (arith, length-drop (length p.entries - limit) p.entries);
          unlimited = λ e. cc;
        }

    -- `insert` never raises on blocks that have owners: it keeps the cache and the block manager
    -- valid, ends with no more entries than the capacity, and without one keeps every entry, takes
    -- no block from the free list and publishes every full block.
    pub add_lem : Added
    add_lem = elim (Bool-cases s.cache.enabled) [
      | inr off ↦ add_off off
      | inl on ↦ elim (Option-cases s.cache.max_entries) [
        | inl free ↦ add_unlimited on free
        | inr (limit, e) ↦ add_limited limit on e
      ]
    ]

-- The two results that the fields of `Added` hold, each with its own conditions.
module _ (digest : Str → Str) (s : Shared) (tokens bs : List ℕ) (v : IsPinned s)
    (own : (b : ℕ) → 0 < count b bs → 0 < owners s.blocks (pins s) b)
    (on : s.cache.enabled ≡ true) where
  -- On a shared state where the cache entries are the pins of a valid block manager, `insert` of
  -- blocks that have owners into an enabled cache with a capacity raises nothing, ends with at
  -- most that many entries, and the entries are the pins of a valid block manager again.
  pub add-limited :
      (limit : ℕ)
      → s.cache.max_entries ≡ some limit
      → (added : ℕ) × (t : Shared) × (add digest tokens bs s ≡ (ok added, t))
        × IsPinned t
        × (length t.cache.entries ≤ limit)
  add-limited limit e =
      let a = add_lem digest s tokens bs v own in
      (
        a.added,
        evicted s a.entries a.evictions a.free a.counts,
        a.run,
        a.valid,
        a.bounded limit e on,
      )

  -- On a shared state where the cache entries are the pins of a valid block manager, `insert` of
  -- blocks that have owners into an enabled cache without a capacity raises nothing, keeps every
  -- entry, leaves the free list as it is, and finds each hash of the prompt that has a block; the
  -- entries are the pins of a valid block manager again.
  pub add-unlimited :
      s.cache.max_entries ≡ none
      → (added : ℕ) × (t : Shared) × (add digest tokens bs s ≡ (ok added, t))
        × IsPinned t
        × (t.blocks.free_list ≡ s.blocks.free_list)
        × Keeps s.cache.entries t.cache.entries
        × Present (hashes digest tokens s.blocks.block_size) bs t.cache.entries
  add-unlimited e =
      let a = add_lem digest s tokens bs v own in
      let (same, keeps, present) = a.unlimited e in
      (
        a.added,
        evicted s a.entries a.evictions a.free a.counts,
        a.run,
        a.valid,
        same,
        keeps,
        present on,
      )
