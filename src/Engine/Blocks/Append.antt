-- ===== src/Engine/Blocks/Append.antt =====
-- `append_tokens` of llm_serve/engine/block_manager.py, on every branch.
use llm_serve.Prelude.{
  ℕ, ◌+◌, ◌-◌, ◌≤◌, ◌≡◌, refl, ◌⊎◌, inl, inr, true, false, Option, none, some, List, ◌++◌, length,
  length-append, length-take, take, drop, count-append, Str, lookup, insert, lookup-insert,
  DistinctKeys-insert, count-held-insert, Bool-cases, Option-cases, block_allocation_error, ok, err,
  arith,
}
use llm_serve.Engine.Blocks.{
  BlockManager, blocks_for_tokens, blocks_needed_to_append, append_tokens, can_append, add_length,
  num_free_blocks,
}
use llm_serve.Engine.Blocks.Pool.{incr_all, free-Within, Pool-ext, Pool-claim}
use llm_serve.Engine.Blocks.Loops.{grow_lem}
use llm_serve.Engine.Blocks.Invariant.{Fits, IsValid, blocks_for_tokens_mono}

-- The table and the length of a known sequence.
pub record Known (m : BlockManager) (seq_id : Str) (t : List ℕ) (l : ℕ) : Type 0 where
  pub table : lookup seq_id m.tables ≡ some t
  pub tokens : lookup seq_id m.lengths ≡ some l

-- In a valid manager a sequence with a table is known.
pub known :
    (m : BlockManager) (pins : ℕ → ℕ) (seq_id : Str) {t : List ℕ}
    → IsValid m pins
    → lookup seq_id m.tables ≡ some t
    → (l : ℕ) × Known m seq_id t l × (length t ≡ blocks_for_tokens m l)
known m pins seq_id {t} v e = split (lookup seq_id m.lengths) refl (rw e at (v.fits seq_id))
  where
    split :
        (o : Option ℕ)
        → lookup seq_id m.lengths ≡ o
        → Fits m (some t) (lookup seq_id m.lengths)
        → (l : ℕ) × Known m seq_id t l × (length t ≡ blocks_for_tokens m l)
    split none f fit = absurd (rw f at fit)
    split (some l) f fit = (l, record { table = e; tokens = f }, rw f at fit)

-- So is a sequence with a length.
pub Known-tokens :
    (m : BlockManager) (pins : ℕ → ℕ) (seq_id : Str) {l : ℕ}
    → IsValid m pins
    → lookup seq_id m.lengths ≡ some l
    → (t : List ℕ) × Known m seq_id t l × (length t ≡ blocks_for_tokens m l)
Known-tokens m pins seq_id {l} v e = split (lookup seq_id m.tables) refl (rw e at (v.fits seq_id))
  where
    split :
        (o : Option (List ℕ))
        → lookup seq_id m.tables ≡ o
        → Fits m (lookup seq_id m.tables) (some l)
        → (t : List ℕ) × Known m seq_id t l × (length t ≡ blocks_for_tokens m l)
    split none f fit = absurd (rw f at fit)
    split (some t) f fit = (t, record { table = f; tokens = e }, rw f at fit)

abbrev pub grown : BlockManager → Str → List ℕ → ℕ → ℕ → ℕ → BlockManager
grown m seq_id t l num_tokens needed = record m {
  free_list = drop needed m.free_list;
  ref_counts = incr_all (take needed m.free_list) m.ref_counts;
  tables = insert seq_id (t ++ take needed m.free_list) m.tables;
  lengths = insert seq_id (l + num_tokens) m.lengths;
}

module _ (m : BlockManager) (seq_id : Str) (num_tokens : ℕ) where
  pub append_tokens_full :
      can_append m seq_id num_tokens ≡ false
      → append_tokens seq_id num_tokens m ≡ (err block_allocation_error, m)
  unfolding append_tokens can_append
  append_tokens_full h = ground arith

  pub append_tokens_unknown :
      lookup seq_id m.tables ≡ none
      → append_tokens seq_id num_tokens m ≡ (err block_allocation_error, m)
  unfolding append_tokens
  append_tokens_unknown h = rw h

module _ (m : BlockManager) (pins : ℕ → ℕ) (seq_id : Str) (num_tokens : ℕ) {t : List ℕ}
    {l : ℕ} where
  needed-Known :
      Known m seq_id t l
      → blocks_needed_to_append m seq_id num_tokens
        ≡ blocks_for_tokens m (l + num_tokens) - length t
  unfolding blocks_needed_to_append
  needed-Known k = rw (k.table, k.tokens)

  -- Where `can_append` holds the sequence grows by the lowest free blocks.
  pub append_tokens_ok :
      IsValid m pins
      → Known m seq_id t l
      → can_append m seq_id num_tokens ≡ true
      → append_tokens seq_id num_tokens m ≡ (
        ok (take (blocks_needed_to_append m seq_id num_tokens) m.free_list),
        grown m seq_id t l num_tokens (blocks_needed_to_append m seq_id num_tokens),
      )
  unfolding append_tokens can_append add_length
  append_tokens_ok v k h = ground (
    arith,
    k.table,
    k.tokens,
    grow_lem seq_id (blocks_needed_to_append m seq_id num_tokens) m t (ground arith)
        (free-Within v.pool) k.table,
  )

  pub grown-IsValid :
      IsValid m pins
      → Known m seq_id t l
      → length t ≡ blocks_for_tokens m l
      → can_append m seq_id num_tokens ≡ true
      → IsValid (grown m seq_id t l num_tokens (blocks_needed_to_append m seq_id num_tokens)) pins
  unfolding can_append num_free_blocks
  grown-IsValid v k fit h =
      let needed = blocks_needed_to_append m seq_id num_tokens in
      let fresh = take needed m.free_list in
      let enough : needed ≤ length m.free_list = ground arith in
      let size : length (t ++ fresh) ≡ blocks_for_tokens m (l + num_tokens) = omega (
        arith,
        length-append t fresh,
        length-take needed m.free_list,
        needed-Known k,
        blocks_for_tokens_mono m l (l + num_tokens) v.positive (omega arith),
      ) in
      record {
        positive = v.positive;
        pool = Pool-ext (Pool-claim v.pool needed) (λ b. omega (
          arith,
          count-held-insert b seq_id t (t ++ fresh) m.tables k.table,
          count-append b t fresh,
        ));
        distinct = DistinctKeys-insert seq_id (t ++ fresh) m.tables v.distinct;
        fits = λ j.
            unfold blocks_for_tokens in
            ground (
              arith,
              v.fits j,
              size,
              lookup-insert seq_id j (t ++ fresh) m.tables,
              lookup-insert seq_id j (l + num_tokens) m.lengths,
            );
      }

module _ (m : BlockManager) (pins : ℕ → ℕ) (seq_id : Str) (num_tokens : ℕ) where
  -- A known sequence grows where `can_append` holds; otherwise nothing changes.
  abbrev pub Appends : Type 0
  Appends =
      ((t : List ℕ) × (l : ℕ) × Known m seq_id t l
        × (can_append m seq_id num_tokens ≡ true)
        × (append_tokens seq_id num_tokens m ≡ (
          ok (take (blocks_needed_to_append m seq_id num_tokens) m.free_list),
          grown m seq_id t l num_tokens (blocks_needed_to_append m seq_id num_tokens),
        ))
        × IsValid (grown m seq_id t l num_tokens (blocks_needed_to_append m seq_id num_tokens))
            pins)
      ⊎ (((lookup seq_id m.tables ≡ none) ⊎ (can_append m seq_id num_tokens ≡ false))
          × (append_tokens seq_id num_tokens m ≡ (err block_allocation_error, m)))

module _ (m : BlockManager) (pins : ℕ → ℕ) (seq_id : Str) (num_tokens : ℕ)
    (v : IsValid m pins) where
  -- On a valid block manager `append_tokens` of a known sequence for which `can_append` holds
  -- returns the blocks that are missing, from the top of the free list, adds them to the table and
  -- the tokens to the length, and leaves the manager valid; if the sequence is unknown or
  -- `can_append` fails it raises `BlockAllocationError` and changes nothing.
  pub append_tokens-cases : Appends m pins seq_id num_tokens
  append_tokens-cases = elim (Option-cases (lookup seq_id m.tables)) [
    | inl e ↦ inr (inl e, append_tokens_unknown m seq_id num_tokens e)
    | inr (t, e) ↦ elim (Bool-cases (can_append m seq_id num_tokens)) [
      | inr f ↦ inr (inr f, append_tokens_full m seq_id num_tokens f)
      | inl f ↦
          let (l, k, fit) = known m pins seq_id v e in
          inl (
            t,
            l,
            k,
            f,
            append_tokens_ok m pins seq_id num_tokens v k f,
            grown-IsValid m pins seq_id num_tokens v k fit f,
          )
    ]
  ]

  pub append_tokens-IsValid : IsValid (append_tokens seq_id num_tokens m).1 pins
  append_tokens-IsValid = elim append_tokens-cases [
    | inl (t, l, k, f, e, v') ↦ rw e v'
    | inr (f, e) ↦ rw e v
  ]
