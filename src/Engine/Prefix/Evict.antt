-- ===== src/Engine/Prefix/Evict.antt =====
-- Eviction in llm_serve/engine/prefix_cache.py: `evict`, `_enforce_capacity` and `clear`.
use llm_serve.Prelude.{
  ℕ, zero, suc, ◌+◌, ◌-◌, ◌≤◌, ◌<◌, ◌≡◌, refl, sym, Bool, true, false, not, some, List, [], ◌∷◌,
  length, drop, Str, ltb, min, ◌==◌, if◌then◌else◌, ok, arith, Dict, Result,
}
use mathlib.Core.Path.{subst}
use llm_serve.Engine.Blocks.Invariant.{owners}
use llm_serve.Engine.Blocks.Pins.{unpin_ok, unpinned, unpinned-IsValid}
use llm_serve.Engine.Prefix.{
  Shared, evict_one, evict, evict_above, clear, clear_from, enforce_capacity, enforce, with_entries,
}
use llm_serve.Engine.Prefix.Find.{IsPinned, IsValid-ext, pins}

-- The state with the entries `d` and `k` evictions so far, over another free list and counts.
abbrev pub evicted : Shared → Dict ℕ → ℕ → List ℕ → List ℕ → Shared
evicted s d k free counts = record {
  cache = record (s.cache) { entries = d; evictions = k };
  blocks = record (s.blocks) { free_list = free; ref_counts = counts };
}

-- What `k` evictions that leave the entries `d` do, `run` being their result from the state `s`.
pub record Evicted {A : Type 0} (s : Shared) (d : Dict ℕ) (k : ℕ) (run : Result A × Shared)
    (value : ℕ → A) : Type 0 where
  pub freed : ℕ
  pub evictions : ℕ
  pub free : List ℕ
  pub counts : List ℕ
  pub result : run ≡ (ok (value freed), evicted s d evictions free counts)
  pub valid : IsPinned (evicted s d evictions free counts)
  pub size : freed + length s.blocks.free_list ≡ length free
  pub counted : evictions ≡ s.cache.evictions + k

abbrev as_bool : ℕ → Bool
as_bool n = not (n == 0)

as_bool_number : (n : ℕ) → n ≤ 1 → (if as_bool n then 1 else 0) ≡ n
as_bool_number n h = ground arith

evict_one_lem :
    (s : Shared) (h : Str) (b : ℕ) (d : Dict ℕ)
    → IsPinned (with_entries s ((h, b) ∷ d))
    → Evicted s d 1 (evict_one (with_entries s ((h, b) ∷ d))) as_bool
unfolding evict_one
evict_one_lem s h b d v =
    let s' = with_entries s ((h, b) ∷ d) in
    let pinned : 0 < pins s' b = ground arith in
    let gone = unpinned s'.blocks (pins s') b v.manager in
    record {
      freed = if owners s'.blocks (pins s') b == 1 then 1 else 0;
      evictions = s.cache.evictions + 1;
      free = gone.free_list;
      counts = gone.ref_counts;
      result = rw (unpin_ok s'.blocks (pins s') b v.manager pinned) (ground arith);
      valid = record {
        manager =
            IsValid-ext (λ c. omega arith)
              (unpinned-IsValid s'.blocks (pins s') b v.manager pinned);
        distinct = v.distinct.1;
      };
      size = ground arith;
      counted = refl;
    }

-- One eviction frees at most its block.
freed-le :
    (s : Shared) (h : Str) (b : ℕ) (d : Dict ℕ) (v : IsPinned (with_entries s ((h, b) ∷ d)))
    → (evict_one_lem s h b d v).freed ≤ 1
unfolding evict_one_lem
freed-le s h b d v = ground arith

-- Nothing is evicted.
none_evicted :
    {A : Type 0} (s : Shared) (d : Dict ℕ) (k : ℕ) (a : A) (value : ℕ → A)
    → k ≡ 0
    → value 0 ≡ a
    → IsPinned (with_entries s d)
    → Evicted s d k (ok a, with_entries s d) value
none_evicted s d k a value e f v = record {
  freed = 0;
  evictions = s.cache.evictions;
  free = s.blocks.free_list;
  counts = s.blocks.ref_counts;
  result = rw f;
  valid = v;
  size = omega arith;
  counted = omega arith;
}

-- One eviction, and then `k` more.
module _ (s : Shared) (h : Str) (b : ℕ) (d : Dict ℕ)
    (v : IsPinned (with_entries s ((h, b) ∷ d))) where
  abbrev after_one : Shared
  after_one = let one = evict_one_lem s h b d v in evicted s d one.evictions one.free one.counts

  one_and_more :
      {A B : Type 0} {e : Dict ℕ} {k j : ℕ} {run : Result A × Shared} {value : ℕ → A}
      (more : Evicted after_one e k run value) (total : Result B × Shared) (value' : ℕ → B)
      → total ≡ (
        ok (value' ((evict_one_lem s h b d v).freed + more.freed)),
        evicted s e more.evictions more.free more.counts,
      )
      → j ≡ suc k
      → Evicted s e j total value'
  one_and_more more total value' result next =
      let one = evict_one_lem s h b d v in
      record {
        freed = one.freed + more.freed;
        evictions = more.evictions;
        free = more.free;
        counts = more.counts;
        result = result;
        valid = more.valid;
        size = omega (arith, one.size, more.size);
        counted = omega (arith, one.counted, more.counted);
      }

-- On a shared state where the cache entries are the pins of a valid block manager, `evict` of `n`
-- entries drops the `n` oldest ones, or all of them, counts them as evictions, and returns by how
-- many blocks the free list grew; the entries that are left are the pins of a valid block manager
-- again.
pub evict_lem :
    (n : ℕ) (s : Shared) (d : Dict ℕ)
    → IsPinned (with_entries s d)
    → Evicted s (drop n d) (min n (length d)) (evict n (with_entries s d)) (λ r. r)
unfolding evict
evict_lem zero s d v = none_evicted s d _ 0 (λ r. r) (omega arith) refl v
evict_lem (suc n) s [] v = none_evicted s [] _ 0 (λ r. r) (omega arith) refl v
evict_lem (suc n) s ((h, b) ∷ d) v =
    let one = evict_one_lem s h b d v in
    let more = evict_lem n (after_one s h b d v) d one.valid in
    one_and_more s h b d v more _ (λ r. r)
      (rw (one.result, more.result, as_bool_number one.freed (freed-le s h b d v))) (omega arith)

-- The loop of `_enforce_capacity` drops the oldest entries until `limit` are left.
evict_above_lem :
    (fuel limit k : ℕ) (s : Shared) (d : Dict ℕ)
    → length d ≤ fuel
    → k ≡ length d - limit
    → IsPinned (with_entries s d)
    → Evicted s (drop k d) k (evict_above fuel limit (with_entries s d)) (λ r. tt)
unfolding evict_above
evict_above_lem zero limit zero s d h e v = none_evicted s d 0 tt (λ r. tt) refl refl v
evict_above_lem (suc fuel) limit zero s d h e v =
    let fits : ltb limit (length d) ≡ false = ground arith in
    rw fits (none_evicted s d 0 tt (λ r. tt) refl refl v)
evict_above_lem fuel limit (suc k) s [] h e v = absurd (omega arith)
evict_above_lem zero limit (suc k) s (x ∷ d) h e v = absurd (omega arith)
evict_above_lem (suc fuel) limit (suc k) s ((h, b) ∷ d) short e v =
    let big : ltb limit (suc (length d)) ≡ true = ground arith in
    let one = evict_one_lem s h b d v in
    let more =
      evict_above_lem fuel limit k (after_one s h b d v) d (omega arith) (omega arith) one.valid in
    one_and_more s h b d v more _ (λ r. tt) (rw (big, one.result, more.result)) refl

-- On a shared state where the cache entries are the pins of a valid block manager,
-- `_enforce_capacity` of a cache with a capacity ends and drops the oldest entries until the
-- capacity is met, and no more; the entries that are left are the pins of a valid block manager
-- again.
pub enforce_capacity_lem :
    (s : Shared) (limit : ℕ)
    → s.cache.max_entries ≡ some limit
    → IsPinned s
    → Evicted s
        (drop (length s.cache.entries - limit) s.cache.entries)
        (length s.cache.entries - limit)
        (enforce_capacity s)
        (λ r. tt)
unfolding enforce_capacity
enforce_capacity_lem s limit e v =
    let k = length s.cache.entries - limit in
    subst (λ o. Evicted s (drop k s.cache.entries) k (enforce o s) (λ r. tt)) (sym e)
      (evict_above_lem (length s.cache.entries) limit k s s.cache.entries (omega arith) refl v)

-- `clear` ends with no entry, and no pin on any block.
clear_from_lem :
    (fuel : ℕ) (s : Shared) (d : Dict ℕ)
    → length d ≤ fuel
    → IsPinned (with_entries s d)
    → Evicted s [] (length d) (clear_from fuel (with_entries s d)) (λ r. tt)
unfolding clear_from
clear_from_lem zero s [] h v = none_evicted s [] 0 tt (λ r. tt) refl refl v
clear_from_lem zero s (x ∷ d) h v = absurd (omega arith)
clear_from_lem (suc fuel) s [] h v = none_evicted s [] 0 tt (λ r. tt) refl refl v
clear_from_lem (suc fuel) s ((h, b) ∷ d) short v =
    let one = evict_one_lem s h b d v in
    let more = clear_from_lem fuel (after_one s h b d v) d (omega arith) one.valid in
    one_and_more s h b d v more _ (λ r. tt) (rw (one.result, more.result)) refl

-- On a shared state where the cache entries are the pins of a valid block manager, `clear` ends
-- with no entry left, counts each as an eviction, and leaves a valid block manager without pins.
pub clear_lem :
    (s : Shared) → IsPinned s → Evicted s [] (length s.cache.entries) (clear s) (λ r. tt)
unfolding clear
clear_lem s v = clear_from_lem (length s.cache.entries) s s.cache.entries (omega arith) v
