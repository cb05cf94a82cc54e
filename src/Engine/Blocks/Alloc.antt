-- ===== src/Engine/Blocks/Alloc.antt =====
-- `allocate` of llm_serve/engine/block_manager.py, on every branch.
use llm_serve.Prelude.{
  ℕ, ◌-◌, ◌*◌, ◌≤◌, ◌<◌, ◌≡◌, ◌⊎◌, inl, inr, none, List, ◌++◌, length, length-append, length-take,
  take, drop, count, count-append, Str, lookup, lookup-insert, DistinctKeys-insert,
  count-held-insert_new, ltb, Bool-cases, Option-cases, block_allocation_error, ok, err, arith,
}
use llm_serve.Engine.Blocks.{
  BlockManager, AllocationResult, blocks_for_tokens, allocate, record_table,
}
use llm_serve.Engine.Blocks.Pool.{
  incr_all, owned-Within, free-Within, Pool-ext, Pool-claim, Pool-adopt,
}
use llm_serve.Engine.Blocks.Loops.{adopt_lem, claim_lem}
use llm_serve.Engine.Blocks.Invariant.{owners, IsValid, reused-le}

-- The tests of `allocate`.
abbrev pub needed_blocks : BlockManager → ℕ → List ℕ → ℕ
needed_blocks m num_tokens reused = blocks_for_tokens m num_tokens - length reused

pub record CanAllocate (m : BlockManager) (seq_id : Str) (num_tokens : ℕ) (reused : List ℕ)
    : Type 0 where
  pub fresh : lookup seq_id m.tables ≡ none
  pub short : length reused * m.block_size ≤ num_tokens
  pub enough : needed_blocks m num_tokens reused ≤ length m.free_list

-- The manager after a successful `allocate`: the lowest free blocks follow the reused ones.
abbrev pub after_allocate : BlockManager → Str → ℕ → List ℕ → BlockManager
after_allocate m seq_id num_tokens reused =
    let needed = needed_blocks m num_tokens reused in
    record_table seq_id num_tokens (reused ++ take needed m.free_list) (length reused) (record m {
      free_list = drop needed m.free_list;
      ref_counts = incr_all (take needed m.free_list) (incr_all reused m.ref_counts);
    })

abbrev pub allocation : BlockManager → Str → ℕ → List ℕ → AllocationResult
allocation m seq_id num_tokens reused =
    let needed = needed_blocks m num_tokens reused in
    record {
      seq_id = seq_id;
      block_ids = reused ++ take needed m.free_list;
      reused_blocks = length reused;
      new_blocks = needed;
    }

module _ (m : BlockManager) (pins : ℕ → ℕ) (seq_id : Str) (num_tokens : ℕ) (reused : List ℕ) where
  -- The reused blocks are allocated already.
  abbrev pub Owned : Type 0
  Owned = (b : ℕ) → 0 < count b reused → 0 < owners m pins b

  pub allocate_ok :
      IsValid m pins
      → Owned
      → CanAllocate m seq_id num_tokens reused
      → allocate seq_id num_tokens reused m
        ≡ (ok (allocation m seq_id num_tokens reused), after_allocate m seq_id num_tokens reused)
  unfolding allocate
  allocate_ok v o c =
      let p = Pool-adopt v.pool reused o in
      ground (
        arith,
        c.fresh,
        c.short,
        c.enough,
        adopt_lem reused m (owned-Within v.pool reused o),
        claim_lem (needed_blocks m num_tokens reused)
            (record m { ref_counts = incr_all reused m.ref_counts }) c.enough (free-Within p),
      )

  needed-add :
      IsValid m pins
      → CanAllocate m seq_id num_tokens reused
      → length (reused ++ take (needed_blocks m num_tokens reused) m.free_list)
        ≡ blocks_for_tokens m num_tokens
  needed-add v c = omega (
    arith,
    c.enough,
    length-append reused (take (needed_blocks m num_tokens reused) m.free_list),
    length-take (needed_blocks m num_tokens reused) m.free_list,
    reused-le m (length reused) num_tokens v.positive c.short,
  )

  pub after_allocate-IsValid :
      IsValid m pins
      → Owned
      → CanAllocate m seq_id num_tokens reused
      → IsValid (after_allocate m seq_id num_tokens reused) pins
  unfolding blocks_for_tokens
  after_allocate-IsValid v o c =
      let needed = needed_blocks m num_tokens reused in
      let table = reused ++ take needed m.free_list in
      record {
        positive = v.positive;
        pool = Pool-ext (Pool-claim (Pool-adopt v.pool reused o) needed) (λ b. omega (
          arith,
          count-held-insert_new b seq_id table m.tables c.fresh,
          count-append b reused (take needed m.free_list),
        ));
        distinct = DistinctKeys-insert seq_id table m.tables v.distinct;
        fits = λ k. ground (
          arith,
          v.fits k,
          needed-add v c,
          lookup-insert seq_id k table m.tables,
          lookup-insert seq_id k num_tokens m.lengths,
        );
      }

  -- `allocate` succeeds where its three tests pass; otherwise it refuses and changes nothing.
  abbrev pub Allocates : Type 0
  Allocates =
      (CanAllocate m seq_id num_tokens reused
        × (allocate seq_id num_tokens reused m ≡ (
          ok (allocation m seq_id num_tokens reused),
          after_allocate m seq_id num_tokens reused,
        )))
      ⊎ ((¬ CanAllocate m seq_id num_tokens reused)
          × (allocate seq_id num_tokens reused m ≡ (err block_allocation_error, m)))

  -- On a valid block manager, with reused blocks that all have owners, `allocate` succeeds exactly
  -- if the sequence is new, the reused blocks do not hold more than the tokens asked for and the
  -- pool has the blocks that are missing; then the table is the reused blocks followed by the top
  -- of the free list. Otherwise it raises `BlockAllocationError` and changes nothing.
  pub allocate-cases : IsValid m pins → Owned → Allocates
  unfolding allocate
  allocate-cases v o = elim (Option-cases (lookup seq_id m.tables)) [
    | inr (t, e) ↦ inr (λ c. cc (c.fresh), rw e)
    | inl e ↦ elim (Bool-cases (ltb num_tokens (length reused * m.block_size))) [
      | inl f ↦ inr (λ c. ground (arith, c.short), rw (e, f))
      | inr f ↦ elim (Bool-cases (ltb (length m.free_list) (needed_blocks m num_tokens reused))) [
        | inl g ↦ inr (λ c. ground (arith, c.enough), rw (e, f, g))
        | inr g ↦
            let c : CanAllocate m seq_id num_tokens reused = record {
              fresh = e;
              short = ground arith;
              enough = ground arith;
            } in
            inl (c, allocate_ok v o c)
      ]
    ]
  ]

  -- `allocate` with reused blocks that all have owners keeps a valid block manager valid, whether
  -- it succeeds or raises.
  pub allocate-IsValid :
      IsValid m pins → Owned → IsValid (allocate seq_id num_tokens reused m).1 pins
  allocate-IsValid v o = elim (allocate-cases v o) [
    | inl (c, e) ↦ rw e (after_allocate-IsValid v o c)
    | inr (c, e) ↦ rw e v
  ]
