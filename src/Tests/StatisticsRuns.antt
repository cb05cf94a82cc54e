-- ===== src/Tests/StatisticsRuns.antt =====
-- The theorems on llm_serve/engine/stats.py at a concrete tracker.
use llm_serve.Prelude.{ℕ, ◌-◌, ◌≤◌, ◌≡◌, refl, List, [], ◌∷◌, map, length, drop, ok}
use llm_serve.Engine.Statistics.{Snapshot, EngineStatsTracker, init, observe_all, total}
use llm_serve.Engine.Statistics.Window.{observe_all_lem}

abbrev snapshot : ℕ → Snapshot ℕ
snapshot n = record {
  t = n;
  running = 2;
  waiting = 0;
  kv_cache_usage = 1;
  batch_size = 3 - n;
  batched_tokens = 4;
}

abbrev fresh_tracker : EngineStatsTracker ℕ
fresh_tracker = record { window = 2; snapshots = []; total_steps = 0; total_batched_tokens = 0 }

tracker_starts : init 2 ≡ ok fresh_tracker
unfolding init
tracker_starts = refl

abbrev three : List (Snapshot ℕ)
three = snapshot 0 ∷ snapshot 1 ∷ snapshot 2 ∷ []

observe_all_example :
    ((observe_all three fresh_tracker).snapshots ≡ drop (length three - 2) three)
    × (length (observe_all three fresh_tracker).snapshots ≤ 2)
    × ((observe_all three fresh_tracker).total_steps ≡ length three)
    × ((observe_all three fresh_tracker).total_batched_tokens
        ≡ total (map (λ x. x.batched_tokens) three))
observe_all_example = observe_all_lem 2 three tracker_starts
