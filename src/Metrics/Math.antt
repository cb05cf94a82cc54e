-- ===== src/Metrics/Math.antt =====
-- llm_serve/metrics/math.py: the bucket counts.
use llm_serve.Prelude.{ℕ, ◌+◌, not, List, [], ◌∷◌, Result, ok, err, value_error, if◌then◌else◌}
use llm_serve.Metrics.Registry.{Amounts, Bound, ascends, no_counts, zip, with_inf}
pub mod Counts

module _ {Num : Type 0} (A : Amounts Num) where
  -- The loop over the bounds, for one sample
  unfoldable pub tally : Num → List Num → List ℕ → List ℕ
  tally value [] counts = counts
  tally value (bound ∷ bounds) [] = []
  tally value (bound ∷ bounds) (n ∷ counts) =
      let rest = tally value bounds counts in
      if A.at_most value bound then (n + 1) ∷ rest else n ∷ rest

  -- `counts[-1] += 1`
  unfoldable pub count_last : List ℕ → List ℕ
  count_last [] = []
  count_last (n ∷ []) = (n + 1) ∷ []
  count_last (n ∷ k ∷ counts) = n ∷ count_last (k ∷ counts)

  -- The loop over the samples
  unfoldable pub count_all : List Num → List Num → List ℕ → List ℕ
  unfolding tally count_last
  count_all [] bounds counts = counts
  count_all (value ∷ samples) bounds counts =
      count_all samples bounds (count_last (tally value bounds counts))

  unfoldable pub cumulative_bucket_counts : List Num → List Num → Result (List (Bound Num × ℕ))
  unfolding ascends count_all
  cumulative_bucket_counts samples bounds =
      if not (ascends A bounds)
      then err value_error
      else ok (zip (with_inf bounds) (count_all samples bounds (no_counts bounds)))
