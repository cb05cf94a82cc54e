-- ===== src/Metrics/Registry/Buckets.antt =====
-- llm_serve/metrics/registry.py: the buckets of a histogram.
use llm_serve.Prelude.{
  ℕ, ◌+◌, ◌≡◌, refl, sym, ap, ◌∙◌, true, false, none, some, List, [], ◌∷◌, ◌++◌, map, Str,
  str_eq_iff, str_eq_refl, Dict, ok, arith, if◌then◌else◌,
}
use llm_serve.Metrics.Registry.{
  Amounts, LabelKey, Metric, key_eq, find_key, put_key, or_else, key_of, ascends, bump, no_counts,
  zip, with_inf, observed, observe, observe_all, buckets,
}
use llm_serve.Metrics.Math.{cumulative_bucket_counts}
use llm_serve.Metrics.Math.Counts.{le_counts, with_hit, counts-le_counts, count_all-le_counts}

key_eq_refl : (k : LabelKey) → key_eq k k ≡ true
key_eq_refl [] = refl
key_eq_refl ((m, v) ∷ k) = rw (str_eq_refl m) (rw (str_eq_refl v) (key_eq_refl k))

eq_of_key_eq : (j k : LabelKey) → key_eq j k ≡ true → j ≡ k
eq_of_key_eq [] [] h = refl
eq_of_key_eq [] (q ∷ k) h = cc
eq_of_key_eq (p ∷ j) [] h = cc
eq_of_key_eq ((m, v) ∷ j) ((n, w) ∷ k) h =
    ground (arith, str_eq_iff m n, str_eq_iff v w, eq_of_key_eq j k)

module _ {V : Type 0} where
  find_key-put_key :
      (k j : LabelKey) (v : V) (d : List (LabelKey × V))
      → find_key j (put_key k v d) ≡ (if key_eq k j then some v else find_key j d)
  unfolding find_key put_key
  find_key-put_key k j v [] = refl
  find_key-put_key k j v ((i, w) ∷ d) = ground (
    arith,
    eq_of_key_eq k j,
    eq_of_key_eq i k,
    eq_of_key_eq i j,
    key_eq_refl i,
    key_eq_refl j,
    find_key-put_key k j v d,
  )

module _ {Num : Type 0} (A : Amounts Num) where
  key_of-observed :
      (x : Num) (m : Metric Num) (key : LabelKey) (labels : Dict Str)
      → key_of A (observed A x m key) labels ≡ key_of A m labels
  unfolding key_of
  key_of-observed x m key labels = refl

  -- The counts of a key before any sample and after some.
  abbrev counts_at : LabelKey → Metric Num → List ℕ
  counts_at key m = or_else (no_counts m.bounds) (find_key key m.counts)

  counts_at-observed :
      (x : Num) (m : Metric Num) (key : LabelKey)
      → counts_at key (observed A x m key) ≡ bump A x m.bounds (counts_at key m)
  counts_at-observed x m key =
      rw (find_key-put_key key key (bump A x m.bounds (counts_at key m)) m.counts)
        (rw (key_eq_refl key) refl)

  -- The counts after one sample after another.
  bump_all : List Num → List Num → List ℕ → List ℕ
  bump_all [] bounds counts = counts
  bump_all (x ∷ xs) bounds counts = bump_all xs bounds (bump A x bounds counts)

  record Observed (xs : List Num) (labels : Dict Str) (key : LabelKey) (m n : Metric Num)
      : Type 0 where
    same_key : key_of A n labels ≡ key_of A m labels
    same_bounds : n.bounds ≡ m.bounds
    counted : counts_at key n ≡ bump_all xs m.bounds (counts_at key m)
    others : (j : LabelKey) → key_eq key j ≡ false → find_key j n.counts ≡ find_key j m.counts

  observe_all-Observed :
      (xs : List Num) (labels : Dict Str) (m : Metric Num) (key : LabelKey)
      → key_of A m labels ≡ ok key
      → (n : Metric Num) × (observe_all A xs labels m ≡ ok n) × Observed xs labels key m n
  unfolding observe_all observe bump_all
  observe_all-Observed [] labels m key h = (
    m,
    refl,
    record { same_key = refl; same_bounds = refl; counted = refl; others = λ j h. refl },
  )
  observe_all-Observed (x ∷ xs) labels m key h =
      let (n, run, o) =
        observe_all-Observed xs labels (observed A x m key) key
          (key_of-observed x m key labels ∙ h) in
      (
        n,
        rw h run,
        record {
          same_key = o.same_key ∙ key_of-observed x m key labels;
          same_bounds = o.same_bounds;
          counted = o.counted ∙ ap (bump_all xs m.bounds) (counts_at-observed x m key);
          others = λ j k.
              o.others j k
              ∙ find_key-put_key key j (bump A x m.bounds (counts_at key m)) m.counts
              ∙ rw k refl;
        },
      )

  buckets_lem :
      (labels : Dict Str) (n : Metric Num) (key : LabelKey)
      → key_of A n labels ≡ ok key
      → buckets A labels n ≡ ok (zip (with_inf n.bounds) (counts_at key n))
  unfolding buckets
  buckets_lem labels n key h = rw h refl

  cumulative_lem :
      (xs bounds : List Num)
      → ascends A bounds ≡ true
      → cumulative_bucket_counts A xs bounds ≡ ok (zip (with_inf bounds) (le_counts A xs bounds))
  unfolding cumulative_bucket_counts
  cumulative_lem xs bounds h =
      rw h (ap (λ ns. ok (zip (with_inf bounds) ns)) (count_all-le_counts A xs bounds))

  bump-map :
      (x : Num) (bounds : List Num) (f : Num → ℕ) (k : ℕ)
      → bump A x bounds (map f bounds ++ k ∷ []) ≡ map (with_hit A x f) bounds ++ (k + 1) ∷ []
  unfolding bump
  bump-map x [] f k = refl
  bump-map x (b ∷ bounds) f k = ap (λ ns. with_hit A x f b ∷ ns) (bump-map x bounds f k)

  bump_all-le_counts :
      (xs bounds : List Num) → bump_all xs bounds (no_counts bounds) ≡ le_counts A xs bounds
  unfolding bump_all
  bump_all-le_counts =
      counts-le_counts A bump_all (λ bounds ns. refl)
        (λ x xs bounds f k. ap (bump_all xs bounds) (bump-map x bounds f k))

  -- For a histogram whose bounds ascend, and labels that it accepts and has no samples of,
  -- `observe_all` of any values raises nothing, and then `buckets` of these labels is what
  -- `cumulative_bucket_counts` of llm_serve/metrics/math.py computes from the values and the
  -- bounds, and pairs each bound with the number of the values that are at most it, and infinity
  -- with the number of all values; the counts of all other labels are as before. Values are of any
  -- type with an order.
  pub buckets-observe_all :
      (xs : List Num) (labels : Dict Str) (m : Metric Num) (key : LabelKey)
      → key_of A m labels ≡ ok key
      → ascends A m.bounds ≡ true
      → find_key key m.counts ≡ none
      → (n : Metric Num) × (observe_all A xs labels m ≡ ok n)
        × (buckets A labels n ≡ cumulative_bucket_counts A xs m.bounds)
        × (buckets A labels n ≡ ok (zip (with_inf m.bounds) (le_counts A xs m.bounds)))
        × ((j : LabelKey) → key_eq key j ≡ false → find_key j n.counts ≡ find_key j m.counts)
  buckets-observe_all xs labels m key h up new =
      let (n, run, o) = observe_all-Observed xs labels m key h in
      let counted : buckets A labels n ≡ ok (zip (with_inf m.bounds) (le_counts A xs m.bounds)) =
        buckets_lem labels n key (o.same_key ∙ h)
        ∙ ap (λ bs. ok (zip (with_inf bs) (counts_at key n))) o.same_bounds
        ∙ ap (λ cs. ok (zip (with_inf m.bounds) cs))
            (o.counted
              ∙ ap (λ c. bump_all xs m.bounds (or_else (no_counts m.bounds) c)) new
              ∙ bump_all-le_counts xs m.bounds) in
      (n, run, counted ∙ sym (cumulative_lem xs m.bounds up), counted, o.others)
