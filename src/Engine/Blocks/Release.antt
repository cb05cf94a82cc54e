-- ===== src/Engine/Blocks/Release.antt =====
-- `_release_block` and `free` of llm_serve/engine/block_manager.py.
use llm_serve.Prelude.{
  ℕ, ◌+◌, ◌-◌, ◌≤◌, ◌<◌, ◌≡◌, refl, inl, inr, Option, none, some, List, [], ◌∷◌, length, hit, count,
  decr, get_or-decr, Str, lookup, remove, lookup-remove, remove_absent, DistinctKeys-remove,
  count-held-remove, ◌==◌, if◌then◌else◌, Bool-cases, Option-cases, ok, arith,
}
use llm_serve.Engine.Blocks.{BlockManager, blocks_for_tokens, release_block, release_all, free}
use llm_serve.Engine.Blocks.Pool.{Pool, Pool-ext, Pool-release, Pool-release_last, owned-lt}
use llm_serve.Engine.Blocks.Invariant.{Fits, IsValid}

abbrev with_pool : BlockManager → List ℕ → List ℕ → BlockManager
with_pool m f rc = record m { free_list = f; ref_counts = rc }

-- The free list after one owner of `b` left.
abbrev freed_list : (ℕ → ℕ) → ℕ → List ℕ → List ℕ
freed_list own b f = if own b == 1 then b ∷ f else f

module _ (m : BlockManager) {own : ℕ → ℕ} (p : Pool m.num_blocks m.free_list m.ref_counts own) where
  pub release_block_lem :
      (b : ℕ)
      → 0 < own b
      → release_block b m
        ≡ (ok (own b == 1), with_pool m (freed_list own b m.free_list) (decr m.ref_counts b))
  unfolding release_block
  release_block_lem b h =
      ground (arith, p.counted b, p.sized, owned-lt p b, get_or-decr m.ref_counts b b)

  pub release_block-Pool :
      (b : ℕ)
      → 0 < own b
      → Pool m.num_blocks
          (freed_list own b m.free_list)
          (decr m.ref_counts b)
          (λ c. own c - hit b c)
  release_block-Pool b h = elim (Bool-cases (own b == 1)) [
    | inl e ↦ rw e (Pool-release_last p b (ground arith))
    | inr e ↦ rw e (Pool-release p b (ground arith))
  ]

-- Releasing blocks that have at least as many owners takes one owner from each, and gives back
-- those that have none left.
pub release_all_lem :
    (bs : List ℕ) (m : BlockManager) {own : ℕ → ℕ}
    → Pool m.num_blocks m.free_list m.ref_counts own
    → ((b : ℕ) → count b bs ≤ own b)
    → (r : ℕ) × (f : List ℕ) × (rc : List ℕ) × (release_all bs m ≡ (ok r, with_pool m f rc))
      × Pool m.num_blocks f rc (λ b. own b - count b bs)
      × (r + length m.free_list ≡ length f)
unfolding release_all
release_all_lem [] m p h =
    (0, m.free_list, m.ref_counts, refl, Pool-ext p (λ b. omega arith), omega arith)
release_all_lem (b ∷ bs) m {own} p h =
    let owned : 0 < own b = ground (arith, h b) in
    let m' = with_pool m (freed_list own b m.free_list) (decr m.ref_counts b) in
    let p' = release_block-Pool m p b owned in
    let (r, f, rc, e, q, l) = release_all_lem bs m' p' (λ c. omega (arith, h c)) in
    (
      (if own b == 1 then 1 else 0) + r,
      f,
      rc,
      rw (release_block_lem m p b owned, e),
      Pool-ext q (λ c. omega arith),
      ground arith,
    )

-- The manager without the sequence, over another free list and counts.
abbrev pub without : BlockManager → Str → List ℕ → List ℕ → BlockManager
without m seq_id f rc = record m {
  free_list = f;
  ref_counts = rc;
  tables = remove seq_id m.tables;
  lengths = remove seq_id m.lengths;
}

-- The other sequences keep tables that fit.
without-Fits :
    (m : BlockManager) (pins : ℕ → ℕ) (seq_id : Str) (f rc : List ℕ)
    → IsValid m pins
    → (k : Str)
    → Fits
        (without m seq_id f rc)
        (lookup k (remove seq_id m.tables))
        (lookup k (remove seq_id m.lengths))
unfolding blocks_for_tokens
without-Fits m pins seq_id f rc v k =
    ground (arith, v.fits k, lookup-remove seq_id k m.tables, lookup-remove seq_id k m.lengths)

Fits-none : (m : BlockManager) (o : Option ℕ) → Fits m none o → o ≡ none
Fits-none m none h = refl
Fits-none m (some n) h = absurd h

-- To forget a sequence that has no table changes nothing.
without_absent :
    (m : BlockManager) (pins : ℕ → ℕ) (seq_id : Str)
    → IsValid m pins
    → lookup seq_id m.tables ≡ none
    → without m seq_id m.free_list m.ref_counts ≡ m
without_absent m pins seq_id v e =
    let f : lookup seq_id m.lengths ≡ none = Fits-none m _ (rw e at (v.fits seq_id)) in
    rw (remove_absent seq_id m.tables e, remove_absent seq_id m.lengths f)

-- `free` returns how many blocks became free; the sequence is forgotten.
abbrev pub Frees : BlockManager → (ℕ → ℕ) → Str → Type 0
Frees m pins seq_id =
    (r : ℕ) × (f : List ℕ) × (rc : List ℕ) × (free seq_id m ≡ (ok r, without m seq_id f rc))
    × IsValid (without m seq_id f rc) pins
    × (r + length m.free_list ≡ length f)

-- `free` of any id on a valid block manager raises nothing, forgets the sequence, leaves the
-- manager valid, and returns by how many blocks the free list grew.
pub free_lem :
    (m : BlockManager) (pins : ℕ → ℕ) (seq_id : Str) → IsValid m pins → Frees m pins seq_id
unfolding free
free_lem m pins seq_id v = elim (Option-cases (lookup seq_id m.tables)) [
  | inl e ↦
      let same = without_absent m pins seq_id v e in
      (0, m.free_list, m.ref_counts, rw (same, e), rw same v, omega arith)
  | inr (t, e) ↦
      let parts = λ (b : ℕ). count-held-remove b seq_id t m.tables v.distinct e in
      let m' = record m { tables = remove seq_id m.tables; lengths = remove seq_id m.lengths } in
      let (r, f, rc, done, pool, size) =
        release_all_lem t m' v.pool (λ b. omega (arith, parts b)) in
      (
        r,
        f,
        rc,
        rw (e, done),
        record {
          positive = v.positive;
          pool = Pool-ext pool (λ b. omega (arith, parts b));
          distinct = DistinctKeys-remove seq_id m.tables v.distinct;
          fits = without-Fits m pins seq_id f rc v;
        },
        size,
      )
]

pub free-IsValid :
    (m : BlockManager) (pins : ℕ → ℕ) (seq_id : Str)
    → IsValid m pins
    → IsValid (free seq_id m).1 pins
free-IsValid m pins seq_id v = let (r, f, rc, e, v', size) = free_lem m pins seq_id v in rw e v'
