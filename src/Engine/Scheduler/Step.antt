-- ===== src/Engine/Scheduler/Step.antt =====
-- llm_serve/engine/scheduler.py: the constructor, admission of requests, one engine step, and the
-- driver of the simulations.
use llm_serve.Prelude.{
  ℕ, zero, suc, ◌+◌, ◌-◌, max, Bool, false, not, ◌&&◌, ◌||◌, Option, none, some, List, [], ◌∷◌,
  ◌++◌, length, Str, codes, show, lookup, insert, ltb, leb, ◌==◌, if◌then◌else◌, is_some, str_eq,
  value_error, runtime_error, Result, ok, err, Exec, pure, raise, ◌>>=◌, ◌>>◌, get_state,
}
use llm_serve.Engine.Blocks.{BlockManager, Ratio, blocks_for_tokens}
use llm_serve.Engine.Blocks
use llm_serve.Engine.Prefix
use llm_serve.Engine.Prefix.{is_empty}
use llm_serve.Engine.Scheduler.State.{
  SeqStatus, PreemptionMode, SequenceGroup, prompt_len, SchedulerOutput, new_output, batch_size,
  Scheduler, Batch,
}
use llm_serve.Engine.Scheduler.Decode.{schedule_decodes, schedule_swapped}
use llm_serve.Engine.Scheduler.Prefill.{schedule_prefills}

-- The keyword arguments of the constructor.
pub record Settings : Type 0 where
  pub max_num_seqs : ℕ
  pub max_num_batched_tokens : ℕ
  pub block_size : ℕ
  pub num_gpu_blocks : ℕ
  pub watermark : Ratio
  pub enable_chunked_prefill : Bool
  pub enable_prefix_caching : Bool
  pub max_waiting : ℕ
  pub preemption_mode : Str

-- `if preemption_mode not in ("recompute", "swap"): raise ValueError`
unfoldable pub mode_of : Str → Result PreemptionMode
mode_of mode =
    if str_eq mode (codes "recompute")
    then ok PreemptionMode.recompute
    else if str_eq mode (codes "swap")
    then ok PreemptionMode.swap
    else err value_error

abbrev pub built : Settings → (ℕ → ℕ) → PreemptionMode → BlockManager → Scheduler
built c clock mode blocks = record {
  max_num_seqs = c.max_num_seqs;
  max_num_batched_tokens = c.max_num_batched_tokens;
  enable_chunked_prefill = c.enable_chunked_prefill;
  max_waiting = c.max_waiting;
  preemption_mode = mode;
  shared = record { cache = Prefix.init c.enable_prefix_caching none; blocks = blocks };
  waiting = [];
  running = [];
  swapped = [];
  by_id = [];
  step_count = 0;
  total_preemptions = 0;
  total_prompt_tokens = 0;
  total_generation_tokens = 0;
  finished_count = 0;
  batch_sizes = [];
  next_id = 0;
  clock = clock;
  readings = 0;
}

abbrev pub build :
    Settings → (ℕ → ℕ) → Result PreemptionMode → Result BlockManager → Result Scheduler
build c clock (err e) blocks = err e
build c clock (ok mode) (ok blocks) = ok (built c clock mode blocks)
build c clock (ok mode) (err e) = err e

-- `clock` gives the readings of `time.monotonic()` in the scheduler's life.
unfoldable pub init : Settings → (ℕ → ℕ) → Result Scheduler
unfolding mode_of
init c clock =
    build c clock (mode_of c.preemption_mode)
      (Blocks.init c.block_size c.num_gpu_blocks c.watermark)

-- `seq_id or f"seq-{next(self._ids)}"`: no id and the empty id take the next number.
abbrev pub named : Option Str → Scheduler → Str × Scheduler
named none s = (codes "seq-" ++ show s.next_id, record s { next_id = s.next_id + 1 })
named (some []) s = (codes "seq-" ++ show s.next_id, record s { next_id = s.next_id + 1 })
named (some (c ∷ k)) s = (c ∷ k, s)

abbrev pub arrived : Option ℕ → Scheduler → ℕ × Scheduler
arrived none s = (s.clock s.readings, record s { readings = s.readings + 1 })
arrived (some t) s = (t, s)

abbrev pub new_seq : Str → List ℕ → ℕ → ℕ → SequenceGroup
new_seq k prompt max_tokens arrival_time = record {
  seq_id = k;
  prompt_token_ids = prompt;
  max_tokens = max_tokens;
  arrival_time = arrival_time;
  status = SeqStatus.waiting;
  num_prefilled = 0;
  num_generated = 0;
  num_cached_tokens = 0;
  preemption_count = 0;
  first_scheduled_time = none;
  finish_time = none;
}

unfoldable pub add_request : List ℕ → ℕ → Option Str → Option ℕ → Exec Scheduler SequenceGroup
add_request prompt max_tokens seq_id arrival_time s =
    if leb s.max_waiting (length s.waiting)
    then (err runtime_error, s)
    else if is_empty prompt
    then (err value_error, s)
    else let (k, s₁) = named seq_id s in
      let (t, s₂) = arrived arrival_time s₁ in
      let q = new_seq k prompt max_tokens t in
      if is_some (lookup k s₂.by_id)
      then (err value_error, s₂)
      else (ok q, record s₂ { waiting = s₂.waiting ++ k ∷ []; by_id = insert k q s₂.by_id })

unfoldable pub num_unfinished : Scheduler → ℕ
num_unfinished s = length s.waiting + length s.running + length s.swapped

unfoldable pub has_work : Scheduler → Bool
unfolding num_unfinished
has_work s = ltb 0 (num_unfinished s)

abbrev pub pool_can_hold : Scheduler → Option SequenceGroup → Bool
pool_can_hold s none = false
pool_can_hold s (some head) =
    leb (blocks_for_tokens s.shared.blocks (prompt_len head) + s.shared.blocks.watermark_blocks)
      s.shared.blocks.num_blocks

abbrev pub head_can_progress : Scheduler → List Str → Bool
head_can_progress s [] = not (is_empty s.running) || not (is_empty s.swapped)
head_can_progress s (k ∷ rest) = pool_can_hold s (lookup k s.by_id)

unfoldable pub waiting_can_progress : Scheduler → Bool
waiting_can_progress s = head_can_progress s s.waiting

module _ (digest : Str → Str) where
  -- The three phases of `step`; the result is what is left of the token budget.
  unfoldable pub run_phases : ℕ → Exec Batch ℕ
  run_phases budget = do
    left ← schedule_decodes digest budget
    schedule_swapped
    schedule_prefills digest left

  abbrev close_step : Result ℕ → Batch → Result SchedulerOutput × Scheduler
  close_step (err e) r = (err e, r.sched)
  close_step (ok left) r =
      let out = record (r.out) { batched_tokens = r.sched.max_num_batched_tokens - left } in
      (ok out, record (r.sched) { batch_sizes = r.sched.batch_sizes ++ batch_size out ∷ [] })

  unfoldable pub step : Exec Scheduler SchedulerOutput
  step s =
      let started = record s { step_count = s.step_count + 1 } in
      let run =
        run_phases s.max_num_batched_tokens
          (record { sched = started; out = new_output started.step_count }) in
      close_step run.0 run.1

  -- `run_until_idle`; its bound on the steps is the fuel.
  unfoldable pub run_until_idle : ℕ → Exec Scheduler (List SchedulerOutput)
  run_until_idle zero = pure []
  run_until_idle (suc max_steps) = do
    s ← get_state
    if not (has_work s) then pure [] else (do
      out ← step
      s' ← get_state
      if batch_size out == 0 && not (waiting_can_progress s')
          then raise runtime_error
          else (do outputs ← run_until_idle max_steps; pure (out ∷ outputs)))

pub record SchedulerStats : Type 0 where
  pub step : ℕ
  pub running : ℕ
  pub waiting : ℕ
  pub swapped : ℕ
  pub finished : ℕ
  pub kv_cache_usage : Ratio
  pub prefix_cache_hit_rate : Ratio
  pub preemptions : ℕ
  pub total_prompt_tokens : ℕ
  pub total_generation_tokens : ℕ
  pub avg_batch_size : Ratio
  pub max_batch_size : ℕ

unfoldable pub sum : List ℕ → ℕ
sum [] = 0
sum (x ∷ xs) = x + sum xs

unfoldable pub greatest : List ℕ → ℕ
greatest [] = 0
greatest (x ∷ xs) = max x (greatest xs)

unfoldable pub stats : Scheduler → SchedulerStats
unfolding sum greatest
stats s = record {
  step = s.step_count;
  running = length s.running;
  waiting = length s.waiting;
  swapped = length s.swapped;
  finished = s.finished_count;
  kv_cache_usage = Blocks.usage s.shared.blocks;
  prefix_cache_hit_rate = Prefix.hit_rate s.shared.cache;
  preemptions = s.total_preemptions;
  total_prompt_tokens = s.total_prompt_tokens;
  total_generation_tokens = s.total_generation_tokens;
  avg_batch_size =
      if is_empty s.batch_sizes
      then record { num = 0; den = 1 }
      else record { num = sum s.batch_sizes; den = length s.batch_sizes };
  max_batch_size = greatest s.batch_sizes;
}
