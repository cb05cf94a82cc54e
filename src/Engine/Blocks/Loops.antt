-- ===== src/Engine/Blocks/Loops.antt =====
-- What the loops of `allocate` and `append_tokens` (llm_serve/engine/block_manager.py) compute.
use llm_serve.Prelude.{
  ℕ, zero, suc, ◌≤◌, ◌≡◌, refl, ◌∙◌, some, List, [], ◌∷◌, ◌++◌, length, take, drop, incr,
  length-incr, Str, Dict, lookup, insert, insert_same, insert-insert, append_assoc, append-nil,
  str_eq_refl, lookup-insert, ok, lt→ltb, arith,
}
use llm_serve.Engine.Blocks.Pool.{incr_all, Within, Within-head, Within-tail}
use llm_serve.Engine.Blocks.{BlockManager, adopt, claim, grow}

pub adopt_lem :
    (bs : List ℕ) (m : BlockManager)
    → Within bs (length m.ref_counts)
    → adopt bs m ≡ (ok bs, record m { ref_counts = incr_all bs m.ref_counts })
unfolding adopt
adopt_lem [] m w = refl
adopt_lem (b ∷ bs) m w =
    let m' = record m { ref_counts = incr m.ref_counts b } in
    let within : Within bs (length m'.ref_counts) =
      λ c h. omega (arith, Within-tail b bs w c h, length-incr m.ref_counts b) in
    rw (lt→ltb _ _ (Within-head b bs w), adopt_lem bs m' within)

-- The loop over free blocks, from any free list and counts.
claim_from :
    (m : BlockManager) (n : ℕ) (free rc : List ℕ)
    → n ≤ length free
    → Within free (length rc)
    → claim n (record m { free_list = free; ref_counts = rc }) ≡ (
      ok (take n free),
      record m { free_list = drop n free; ref_counts = incr_all (take n free) rc },
    )
unfolding claim
claim_from m zero free rc h w = refl
claim_from m (suc n) [] rc h w = absurd (omega arith)
claim_from m (suc n) (b ∷ bs) rc h w =
    let within : Within bs (length (incr rc b)) =
      λ c k. omega (arith, Within-tail b bs w c k, length-incr rc b) in
    rw (lt→ltb _ _ (Within-head b bs w), claim_from m n bs (incr rc b) (omega arith) within)

pub claim_lem :
    (n : ℕ) (m : BlockManager)
    → n ≤ length m.free_list
    → Within m.free_list (length m.ref_counts)
    → claim n m ≡ (
      ok (take n m.free_list),
      record m {
        free_list = drop n m.free_list;
        ref_counts = incr_all (take n m.free_list) m.ref_counts;
      },
    )
claim_lem n m h w = claim_from m n m.free_list m.ref_counts h w

-- The same loop where every block also joins the table of the sequence.
grow_from :
    (m : BlockManager) (k : Str) (n : ℕ) (free rc t : List ℕ) (tables : Dict (List ℕ))
    → n ≤ length free
    → Within free (length rc)
    → lookup k tables ≡ some t
    → grow k n (record m { free_list = free; ref_counts = rc; tables = tables }) ≡ (
      ok (take n free),
      record m {
        free_list = drop n free;
        ref_counts = incr_all (take n free) rc;
        tables = insert k (t ++ take n free) tables;
      },
    )
unfolding grow
grow_from m k zero free rc t tables h w found = rw (append-nil t, insert_same k t tables found)
grow_from m k (suc n) [] rc t tables h w found = absurd (omega arith)
grow_from m k (suc n) (b ∷ bs) rc t tables h w found =
    let within : Within bs (length (incr rc b)) =
      λ c k. omega (arith, Within-tail b bs w c k, length-incr rc b) in
    let tables' = insert k (t ++ b ∷ []) tables in
    let found' : lookup k tables' ≡ some (t ++ b ∷ []) =
      lookup-insert k k (t ++ b ∷ []) tables ∙ rw (str_eq_refl k) in
    rw (
      lt→ltb _ _ (Within-head b bs w),
      found,
      grow_from m k n bs (incr rc b) (t ++ b ∷ []) tables' (omega arith) within found',
      insert-insert k (t ++ b ∷ [] ++ take n bs) (t ++ b ∷ []) tables,
      append_assoc t (b ∷ []) (take n bs),
    )

pub grow_lem :
    (k : Str) (n : ℕ) (m : BlockManager) (t : List ℕ)
    → n ≤ length m.free_list
    → Within m.free_list (length m.ref_counts)
    → lookup k m.tables ≡ some t
    → grow k n m ≡ (
      ok (take n m.free_list),
      record m {
        free_list = drop n m.free_list;
        ref_counts = incr_all (take n m.free_list) m.ref_counts;
        tables = insert k (t ++ take n m.free_list) m.tables;
      },
    )
grow_lem k n m t h w found = grow_from m k n m.free_list m.ref_counts t m.tables h w found
