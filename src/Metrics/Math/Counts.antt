-- ===== src/Metrics/Math/Counts.antt =====
-- llm_serve/metrics/math.py: what the bucket counts are.
use llm_serve.Prelude.{
  ℕ, suc, ◌+◌, ◌≤◌, ◌≡◌, refl, ap, ◌∙◌, true, List, [], ◌∷◌, ◌++◌, map, length, ok, arith,
  if◌then◌else◌, Bool-cases, inl, inr,
}
use llm_serve.Metrics.Registry.{Amounts, ascends, no_counts, zip, with_inf}
use llm_serve.Metrics.Math.{tally, count_last, count_all, cumulative_bucket_counts}

module _ {Num : Type 0} (A : Amounts Num) where
  -- The number of the values that are at most the bound.
  abbrev pub count_le : Num → List Num → ℕ
  count_le bound [] = 0
  count_le bound (x ∷ xs) = (if A.at_most x bound then 1 else 0) + count_le bound xs

  -- One count for each bound, and the number of all values.
  abbrev pub le_counts : List Num → List Num → List ℕ
  le_counts xs bounds = map (λ b. count_le b xs) bounds ++ length xs ∷ []

  -- Counts that do not fall.
  abbrev pub Rising : List ℕ → Type 0
  Rising [] = Unit
  Rising (n ∷ []) = Unit
  Rising (n ∷ k ∷ ns) = (n ≤ k) × Rising (k ∷ ns)

  abbrev pub with_hit : Num → (Num → ℕ) → Num → ℕ
  with_hit x f b = if A.at_most x b then f b + 1 else f b

  map_same :
      (f g : Num → ℕ) (bounds : List Num) → ((b : Num) → f b ≡ g b) → map f bounds ≡ map g bounds
  map_same f g [] h = refl
  map_same f g (b ∷ bounds) h = rw (h b) (ap (λ ns. g b ∷ ns) (map_same f g bounds h))

  pub no_counts-map : (bounds : List Num) → no_counts bounds ≡ map (λ b. 0) bounds ++ 0 ∷ []
  no_counts-map [] = refl
  no_counts-map (b ∷ bounds) = ap (λ ns. 0 ∷ ns) (no_counts-map bounds)

  with_hit-count_le :
      (x : Num) (xs : List Num) (f : Num → ℕ) (b : Num)
      → with_hit x f b + count_le b xs ≡ f b + count_le b (x ∷ xs)
  with_hit-count_le x xs f b = ground arith

  module _ (count : List Num → List Num → List ℕ → List ℕ)
      (none_more : (bounds : List Num) (ns : List ℕ) → count [] bounds ns ≡ ns)
      (one_more : (x : Num) (xs bounds : List Num) (f : Num → ℕ) (k : ℕ)
        → count (x ∷ xs) bounds (map f bounds ++ k ∷ [])
          ≡ count xs bounds (map (with_hit x f) bounds ++ (k + 1) ∷ [])) where
    -- A loop over values that counts each at the bounds above it.
    counts_from :
        (xs bounds : List Num) (f : Num → ℕ) (k : ℕ)
        → count xs bounds (map f bounds ++ k ∷ [])
          ≡ map (λ b. f b + count_le b xs) bounds ++ (k + length xs) ∷ []
    counts_from [] bounds f k =
        none_more bounds (map f bounds ++ k ∷ [])
        ∙ ap (λ ns. ns ++ k ∷ []) (map_same f (λ b. f b + 0) bounds (λ b. omega arith))
        ∙ ap (λ n. map (λ b. f b + 0) bounds ++ n ∷ []) (plus_none k)
      where
        plus_none : (n : ℕ) → n ≡ n + 0
        plus_none n = omega arith
    counts_from (x ∷ xs) bounds f k =
        one_more x xs bounds f k
        ∙ counts_from xs bounds (with_hit x f) (k + 1)
        ∙ ap (λ ns. ns ++ (k + 1 + length xs) ∷ [])
            (map_same (λ b. with_hit x f b + count_le b xs) (λ b. f b + count_le b (x ∷ xs)) bounds
              (with_hit-count_le x xs f))
        ∙ ap (λ n. map (λ b. f b + count_le b (x ∷ xs)) bounds ++ n ∷ []) (shift k (length xs))
      where
        shift : (n m : ℕ) → n + 1 + m ≡ n + suc m
        shift n m = omega arith

    pub counts-le_counts :
        (xs bounds : List Num) → count xs bounds (no_counts bounds) ≡ le_counts xs bounds
    counts-le_counts xs bounds =
        ap (count xs bounds) (no_counts-map bounds)
        ∙ counts_from xs bounds (λ b. 0) 0
        ∙ ap (λ ns. ns ++ (0 + length xs) ∷ [])
            (map_same (λ b. 0 + count_le b xs) (λ b. count_le b xs) bounds (λ b. omega arith))
        ∙ ap (λ n. map (λ b. count_le b xs) bounds ++ n ∷ []) (zero_plus (length xs))
      where
        zero_plus : (n : ℕ) → 0 + n ≡ n
        zero_plus n = omega arith

  count_last-append : (ns : List ℕ) (k : ℕ) → count_last A (ns ++ k ∷ []) ≡ ns ++ (k + 1) ∷ []
  unfolding count_last
  count_last-append [] k = refl
  count_last-append (n ∷ []) k = refl
  count_last-append (n ∷ m ∷ ns) k = ap (λ l. n ∷ l) (count_last-append (m ∷ ns) k)

  tally-map :
      (x : Num) (bounds : List Num) (f : Num → ℕ) (k : ℕ)
      → tally A x bounds (map f bounds ++ k ∷ []) ≡ map (with_hit x f) bounds ++ k ∷ []
  unfolding tally
  tally-map x [] f k = refl
  tally-map x (b ∷ bounds) f k = elim (Bool-cases (A.at_most x b)) [
    | inl e ↦ rw e (ap (λ ns. (f b + 1) ∷ ns) (tally-map x bounds f k))
    | inr e ↦ rw e (ap (λ ns. f b ∷ ns) (tally-map x bounds f k))
  ]

  pub count_all-le_counts :
      (xs bounds : List Num) → count_all A xs bounds (no_counts bounds) ≡ le_counts xs bounds
  unfolding count_all
  count_all-le_counts =
      counts-le_counts (count_all A) (λ bounds ns. refl)
        (λ x xs bounds f k.
          ap (λ ns. count_all A xs bounds (count_last A ns)) (tally-map x bounds f k)
          ∙ ap (count_all A xs bounds) (count_last-append (map (with_hit x f) bounds) k))

  count_le-length : (b : Num) (xs : List Num) → count_le b xs ≤ length xs
  count_le-length b [] = omega arith
  count_le-length b (x ∷ xs) = ground (arith, count_le-length b xs)

  module _
      (trans : (x y z : Num)
        → A.at_most x y ≡ true
        → A.at_most y z ≡ true
        → A.at_most x z ≡ true) where
    count_le_mono :
        (b c : Num) (xs : List Num) → A.at_most b c ≡ true → count_le b xs ≤ count_le c xs
    count_le_mono b c [] h = omega arith
    count_le_mono b c (x ∷ xs) h = ground (arith, trans x b c, h, count_le_mono b c xs h)

    le_counts-Rising :
        (xs bounds : List Num) → ascends A bounds ≡ true → Rising (le_counts xs bounds)
    unfolding ascends
    le_counts-Rising xs [] up = tt
    le_counts-Rising xs (b ∷ []) up = (count_le-length b xs, tt)
    le_counts-Rising xs (b ∷ c ∷ bounds) up = (
      count_le_mono b c xs (ground (arith, up)),
      le_counts-Rising xs (c ∷ bounds) (ground (arith, up)),
    )

    -- For values of a type with a transitive order and bounds that ascend,
    -- `cumulative_bucket_counts` pairs each bound with the number of the values that are at most
    -- it, and then infinity with the number of all values; these counts never fall from one to the
    -- next.
    pub cumulative_bucket_counts-Rising :
        (xs bounds : List Num)
        → ascends A bounds ≡ true
        → (cumulative_bucket_counts A xs bounds ≡ ok (zip (with_inf bounds) (le_counts xs bounds)))
          × Rising (le_counts xs bounds)
    unfolding cumulative_bucket_counts
    cumulative_bucket_counts-Rising xs bounds up = (
      rw up (ap (λ ns. ok (zip (with_inf bounds) ns)) (count_all-le_counts xs bounds)),
      le_counts-Rising xs bounds up,
    )
