-- ===== src/Engine/Statistics.antt =====
-- llm_serve/engine/stats.py: the window of engine snapshots. Times are numbers of ticks, a mean is the
-- pair of the sum and of the number of values, and the cache usage is of any type.
use llm_serve.Prelude.{
  ℕ, ◌+◌, ◌-◌, Bool, List, [], ◌∷◌, ◌++◌, map, length, drop, ltb, leb, ◌==◌, if◌then◌else◌, Option,
  none, some, value_error, Result, ok, err,
}
use llm_serve.Engine.Blocks.{Ratio}
pub mod Window
pub mod Histogram

pub record Snapshot (Usage : Type 0) : Type 0 where
  pub t : ℕ
  pub running : ℕ
  pub waiting : ℕ
  pub kv_cache_usage : Usage
  pub batch_size : ℕ
  pub batched_tokens : ℕ

pub record EngineStatsTracker (Usage : Type 0) : Type 0 where
  pub window : ℕ
  pub snapshots : List (Snapshot Usage)
  pub total_steps : ℕ
  pub total_batched_tokens : ℕ

unfoldable pub total : List ℕ → ℕ
total [] = 0
total (x ∷ xs) = x + total xs

-- `_mean`
unfoldable pub mean : List ℕ → Ratio
mean [] = record { num = 0; den = 1 }
mean (x ∷ xs) = record { num = total (x ∷ xs); den = length (x ∷ xs) }

-- `hist[k] = hist.get(k, 0) + 1`
unfoldable pub bump : ℕ → List (ℕ × ℕ) → List (ℕ × ℕ)
bump k [] = (k, 1) ∷ []
bump k (e ∷ hist) = let rest = bump k hist in if e.0 == k then (k, e.1 + 1) ∷ hist else e ∷ rest

-- The loop over the batch sizes.
unfoldable pub tally : List ℕ → List (ℕ × ℕ) → List (ℕ × ℕ)
tally [] hist = hist
tally (k ∷ ks) hist = tally ks (bump k hist)

-- `sorted` of pairs with distinct keys.
unfoldable pub place : ℕ × ℕ → List (ℕ × ℕ) → List (ℕ × ℕ)
place e [] = e ∷ []
place e (f ∷ hist) = let rest = place e hist in if leb e.0 f.0 then e ∷ f ∷ hist else f ∷ rest

unfoldable pub sorted : List (ℕ × ℕ) → List (ℕ × ℕ)
sorted [] = []
sorted (e ∷ hist) = place e (sorted hist)

module _ {Usage : Type 0} where
  unfoldable pub init : ℕ → Result (EngineStatsTracker Usage)
  init window =
      if ltb window 1
      then err value_error
      else ok
          (record { window = window; snapshots = []; total_steps = 0; total_batched_tokens = 0 })

  -- `append` to a deque with the bound `window`.
  unfoldable pub push_bounded : ℕ → Snapshot Usage → List (Snapshot Usage) → List (Snapshot Usage)
  push_bounded window x xs = if ltb (length xs) window then xs ++ x ∷ [] else drop 1 (xs ++ x ∷ [])

  -- `record`, of the snapshot that it builds from its arguments.
  unfoldable pub observe : Snapshot Usage → EngineStatsTracker Usage → EngineStatsTracker Usage
  observe snap s = record s {
    snapshots = push_bounded s.window snap s.snapshots;
    total_steps = s.total_steps + 1;
    total_batched_tokens = s.total_batched_tokens + snap.batched_tokens;
  }

  unfoldable pub observe_all :
      List (Snapshot Usage) → EngineStatsTracker Usage → EngineStatsTracker Usage
  observe_all [] s = s
  observe_all (x ∷ xs) s = observe_all xs (observe x s)

  unfoldable pub avg_batch_size : EngineStatsTracker Usage → Ratio
  avg_batch_size s = mean (map (λ x. x.batch_size) s.snapshots)

  unfoldable pub avg_running : EngineStatsTracker Usage → Ratio
  avg_running s = mean (map (λ x. x.running) s.snapshots)

  unfoldable pub avg_waiting : EngineStatsTracker Usage → Ratio
  avg_waiting s = mean (map (λ x. x.waiting) s.snapshots)

  unfoldable pub last_time : ℕ → List (Snapshot Usage) → ℕ
  last_time t [] = t
  last_time t (x ∷ xs) = last_time x.t xs

  abbrev rate : List (Snapshot Usage) → Ratio
  rate [] = record { num = 0; den = 1 }
  rate (x ∷ []) = record { num = 0; den = 1 }
  rate (x ∷ y ∷ xs) =
      let span = last_time y.t xs - x.t in
      if leb span 0
      then record { num = 0; den = 1 }
      else record { num = length (y ∷ xs); den = span }

  unfoldable pub steps_per_second : EngineStatsTracker Usage → Ratio
  steps_per_second s = rate s.snapshots

  unfoldable pub batch_size_histogram : EngineStatsTracker Usage → List (ℕ × ℕ)
  batch_size_histogram s = sorted (tally (map (λ x. x.batch_size) s.snapshots) [])
