-- ===== src/Engine/Prefix/Publish.antt =====
-- The loop of `insert` in llm_serve/engine/prefix_cache.py (`publish`).
use llm_serve.Prelude.{
  ℕ, ◌+◌, ◌<◌, ◌≡◌, refl, ap, ◌∙◌, sym, inl, inr, true, none, some, List, [], ◌∷◌, length, count,
  count-append, Str, str_eq_iff, str_eq_refl, lookup, insert, insert_new, lookup-insert,
  length-append, is_some, DistinctKeys-insert, values, values-append, Option-cases, ok, arith, Dict,
}
use llm_serve.Engine.Blocks.Invariant.{owners}
use llm_serve.Engine.Blocks.Pins.{pin_ok, pinned, pinned-IsValid}
use llm_serve.Engine.Prefix.{Shared, publish, move_to_end, with_entries}
use llm_serve.Engine.Prefix.Order.{move_to_end-Reordered}
use llm_serve.Engine.Prefix.Find.{IsPinned, IsValid-ext, pins}

-- The shared state with other entries and other reference counts.
abbrev pub entered : Shared → Dict ℕ → List ℕ → Shared
entered s d rc = record {
  cache = record (s.cache) { entries = d };
  blocks = record (s.blocks) { ref_counts = rc };
}

-- Every hash that has a block beside it is among the entries.
abbrev pub Present : List Str → List ℕ → Dict ℕ → Type 0
Present [] bs d = Unit
Present (h ∷ hs) [] d = Unit
Present (h ∷ hs) (b ∷ bs) d = (is_some (lookup h d) ≡ true) × Present hs bs d

-- The entries `d` grew to `e`: what was found is found still, with the same block.
abbrev pub Keeps : Dict ℕ → Dict ℕ → Type 0
Keeps d e = (h : Str) (b : ℕ) → lookup h d ≡ some b → lookup h e ≡ some b

-- What publishing does from the state `s`: how many entries it adds, the new entries and counts.
pub record Published (s : Shared) (hs : List Str) (bs : List ℕ) : Type 0 where
  pub added : ℕ
  pub entries : Dict ℕ
  pub counts : List ℕ
  pub run : publish hs bs s ≡ (ok added, entered s entries counts)
  pub valid : IsPinned (entered s entries counts)
  pub grown : added + length s.cache.entries ≡ length entries
  pub keeps : Keeps s.cache.entries entries
  pub present : Present hs bs entries

pinned_entry :
    (s : Shared) (h : Str) (b : ℕ)
    → IsPinned s
    → lookup h s.cache.entries ≡ none
    → 0 < owners s.blocks (pins s) b
    → IsPinned (entered s (insert h b s.cache.entries) (pinned s.blocks b).ref_counts)
pinned_entry s h b v new owned =
    let d = s.cache.entries in
    record {
      manager =
          IsValid-ext
            (λ c.
              rw (insert_new h b d new, values-append d ((h, b) ∷ []))
                (omega (arith, count-append c (values d) (b ∷ []))))
            (pinned-IsValid s.blocks (pins s) b v.manager owned);
      distinct = DistinctKeys-insert h b d v.distinct;
    }

moved_entry :
    (s : Shared) (h : Str) → IsPinned s → IsPinned (with_entries s (move_to_end h s.cache.entries))
moved_entry s h v =
    let r = move_to_end-Reordered h s.cache.entries v.distinct in
    record { manager = IsValid-ext (λ c. sym (r.counts c)) v.manager; distinct = r.distinct }

-- A new entry only adds owners, keeps the others, and makes the dictionary one longer.
module _ (s : Shared) (h : Str) (b : ℕ) (new : lookup h s.cache.entries ≡ none) where
  entry_owned :
      (c : ℕ)
      → 0 < owners s.blocks (pins s) c
      → 0 < owners s.blocks (λ x. count x (values (insert h b s.cache.entries))) c
  entry_owned c own =
      let d = s.cache.entries in
      rw (insert_new h b d new, values-append d ((h, b) ∷ []))
        (omega (arith, count-append c (values d) (b ∷ [])))

  entry_Keeps : Keeps s.cache.entries (insert h b s.cache.entries)
  entry_Keeps g c e = ground (
    arith,
    lookup-insert h g b s.cache.entries,
    str_eq_iff h g,
    ap (λ (k : Str). lookup k s.cache.entries),
    new,
  )

  length-entry : length (insert h b s.cache.entries) ≡ length s.cache.entries + 1
  length-entry =
      rw (insert_new h b s.cache.entries new) (length-append s.cache.entries ((h, b) ∷ []))

-- On a shared state where the cache entries are the pins of a valid block manager, the loop of
-- `insert` over blocks that have owners raises nothing: each hash that has a block is found after
-- it, every entry that was there keeps its block, the result is by how many entries the cache
-- grew, and the entries are the pins of a valid block manager again.
pub publish_lem :
    (hs : List Str) (bs : List ℕ) (s : Shared)
    → IsPinned s
    → ((b : ℕ) → 0 < count b bs → 0 < owners s.blocks (pins s) b)
    → Published s hs bs
unfolding publish
publish_lem [] bs s v own = record {
  added = 0;
  entries = s.cache.entries;
  counts = s.blocks.ref_counts;
  run = refl;
  valid = v;
  grown = omega arith;
  keeps = λ h b e. e;
  present = tt;
}
publish_lem (h ∷ hs) [] s v own = record {
  added = 0;
  entries = s.cache.entries;
  counts = s.blocks.ref_counts;
  run = refl;
  valid = v;
  grown = omega arith;
  keeps = λ h b e. e;
  present = tt;
}
publish_lem (h ∷ hs) (b ∷ bs) s v own = elim (Option-cases (lookup h s.cache.entries)) [
  | inr (c, e) ↦
      let r = move_to_end-Reordered h s.cache.entries v.distinct in
      let s' = with_entries s (move_to_end h s.cache.entries) in
      let rest =
        publish_lem hs bs s' (moved_entry s h v)
          (λ x p. omega (arith, own x (omega arith), r.counts x)) in
      record {
        added = rest.added;
        entries = rest.entries;
        counts = rest.counts;
        run = rw (publish, e) rest.run;
        valid = rest.valid;
        grown = omega (arith, rest.grown, r.size);
        keeps = λ g x p. rest.keeps g x (r.lookups g ∙ p);
        present = (ap (λ o. is_some o) (rest.keeps h c (r.lookups h ∙ e)), rest.present);
      }
  | inl e ↦
      let owned = own b (ground arith) in
      let d = insert h b s.cache.entries in
      let s' = entered s d (pinned s.blocks b).ref_counts in
      let rest =
        publish_lem hs bs s' (pinned_entry s h b v e owned)
          (λ x p. entry_owned s h b e x (own x (omega arith))) in
      record {
        added = rest.added + 1;
        entries = rest.entries;
        counts = rest.counts;
        run = rw (publish, e, pin_ok s.blocks (pins s) b v.manager owned, rest.run);
        valid = rest.valid;
        grown = omega (arith, rest.grown, length-entry s h b e);
        keeps = λ g x p. rest.keeps g x (entry_Keeps s h b e g x p);
        present = (
          ap (λ o. is_some o)
              (rest.keeps h b (lookup-insert h h b s.cache.entries ∙ rw (str_eq_refl h))),
          rest.present,
        );
      }
]
