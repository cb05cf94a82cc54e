-- ===== src/Engine/Prefix/Order.antt =====
-- The order of use in llm_serve/engine/prefix_cache.py, and the loop of `lookup`.
use llm_serve.Prelude.{
  ℕ, zero, suc, ◌≤◌, ◌<◌, ◌≡◌, inl, inr, refl, ap, ◌∙◌, none, some, List, [], ◌∷◌, ◌++◌, length,
  length-append, get_elem?, Str, Dict, lookup, remove, str_eq_iff, str_eq_refl, count, count-append,
  values, values-append, count-values-remove, length-remove, lookup-append, lookup-remove,
  DistinctKeys, DistinctKeys-append_new, DistinctKeys-remove, Option-cases, arith,
  count-values-lookup,
}
use llm_serve.Engine.Prefix.{match_blocks, move_to_end}

-- Two orders of the same entries.
pub record Reordered (d e : Dict ℕ) : Type 0 where
  pub lookups : (k : Str) → lookup k e ≡ lookup k d
  pub counts : (a : ℕ) → count a (values e) ≡ count a (values d)
  pub size : length e ≡ length d
  pub distinct : DistinctKeys e

pub Reordered-refl : (d : Dict ℕ) → DistinctKeys d → Reordered d d
Reordered-refl d u = record { lookups = λ k. refl; counts = λ a. refl; size = refl; distinct = u }

pub Reordered-trans : {d e f : Dict ℕ} → Reordered d e → Reordered e f → Reordered d f
Reordered-trans r s = record {
  lookups = λ k. s.lookups k ∙ r.lookups k;
  counts = λ a. s.counts a ∙ r.counts a;
  size = s.size ∙ r.size;
  distinct = s.distinct;
}

module _ (h : Str) (b : ℕ) (d : Dict ℕ) (u : DistinctKeys d) (e : lookup h d ≡ some b) where
  lookup-moved : (k : Str) → lookup k (remove h d ++ (h, b) ∷ []) ≡ lookup k d
  unfolding lookup
  lookup-moved k =
      ground
        (arith, lookup-append k (remove h d) ((h, b) ∷ []), lookup-remove h k d, str_eq_iff h k)

  moved-Reordered : Reordered d (remove h d ++ (h, b) ∷ [])
  moved-Reordered = record {
    lookups = lookup-moved;
    counts = λ a. rw (values-append (remove h d) ((h, b) ∷ [])) (
        omega
          (arith, count-append a (values (remove h d)) (b ∷ []), count-values-remove a h b d u e));
    size = omega (arith, length-append (remove h d) ((h, b) ∷ []), length-remove h b d u e);
    distinct =
        DistinctKeys-append_new h b (remove h d) (lookup-remove h h d ∙ rw (str_eq_refl h))
          (DistinctKeys-remove h d u);
  }

pub move_to_end-Reordered : (h : Str) (d : Dict ℕ) → DistinctKeys d → Reordered d (move_to_end h d)
unfolding move_to_end
move_to_end-Reordered h d u = elim (Option-cases (lookup h d)) [
  | inl e ↦ rw e (Reordered-refl d u)
  | inr (b, e) ↦ rw e (moved-Reordered h b d u e)
]

-- The blocks of the leading hashes that are all among the entries.
pub prefix_hits : List Str → Dict ℕ → List ℕ
prefix_hits [] d = []
prefix_hits (h ∷ hs) d =
    let rest = prefix_hits hs d in elim (lookup h d) [ none ↦ [] | some b ↦ b ∷ rest ]

prefix_hits-Reordered :
    (hs : List Str) {d e : Dict ℕ} → Reordered d e → prefix_hits hs e ≡ prefix_hits hs d
unfolding prefix_hits
prefix_hits-Reordered [] r = refl
prefix_hits-Reordered (h ∷ hs) r = ground (arith, r.lookups h, prefix_hits-Reordered hs r)

-- The loop of `lookup` finds the leading hits, and reorders the entries.
pub match_blocks_lem :
    (hs : List Str) (d : Dict ℕ)
    → DistinctKeys d
    → ((match_blocks hs d).0 ≡ prefix_hits hs d) × Reordered d (match_blocks hs d).1
unfolding match_blocks prefix_hits
match_blocks_lem [] d u = (refl, Reordered-refl d u)
match_blocks_lem (h ∷ hs) d u = elim (Option-cases (lookup h d)) [
  | inl e ↦ rw (match_blocks, prefix_hits, e) (refl, Reordered-refl d u)
  | inr (b, e) ↦
      let r = move_to_end-Reordered h d u in
      let (found, again) = match_blocks_lem hs (move_to_end h d) r.distinct in
      rw (match_blocks, prefix_hits, e)
        (ap (◌∷◌ b) (found ∙ prefix_hits-Reordered hs r), Reordered-trans r again)
]

-- What `prefix_hits` means: its blocks are those of the first hashes, and the next one is a miss.
pub prefix_hits-hit :
    (hs : List Str) (d : Dict ℕ) (i b : ℕ)
    → get_elem? (prefix_hits hs d) i ≡ some b
    → (h : Str) × (get_elem? hs i ≡ some h) × (lookup h d ≡ some b)
unfolding prefix_hits
prefix_hits-hit [] d i b e = absurd (ground arith)
prefix_hits-hit (h ∷ hs) d zero b e = (h, refl, ground arith)
prefix_hits-hit (h ∷ hs) d (suc i) b e = prefix_hits-hit hs d i b (ground arith)

pub prefix_hits_miss :
    (hs : List Str) (d : Dict ℕ) (h : Str)
    → get_elem? hs (length (prefix_hits hs d)) ≡ some h
    → lookup h d ≡ none
unfolding prefix_hits
prefix_hits_miss [] d h e = ground arith
prefix_hits_miss (g ∷ hs) d h e = ground (arith, prefix_hits_miss hs d h)

pub length-prefix_hits-le : (hs : List Str) (d : Dict ℕ) → length (prefix_hits hs d) ≤ length hs
unfolding prefix_hits
length-prefix_hits-le [] d = omega arith
length-prefix_hits-le (h ∷ hs) d = ground (arith, length-prefix_hits-le hs d)

-- The blocks found are values of the entries.
pub prefix_hits-values :
    (hs : List Str) (d : Dict ℕ) (a : ℕ) → 0 < count a (prefix_hits hs d) → 0 < count a (values d)
unfolding prefix_hits
prefix_hits-values [] d a p = absurd (omega arith)
prefix_hits-values (h ∷ hs) d a p = elim (Option-cases (lookup h d)) [
  | inl e ↦ absurd (ground arith)
  | inr (b, e) ↦ ground (arith, count-values-lookup h b d e, prefix_hits-values hs d a)
]
