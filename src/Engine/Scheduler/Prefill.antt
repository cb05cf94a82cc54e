-- ===== src/Engine/Scheduler/Prefill.antt =====
-- llm_serve/engine/scheduler.py: `_schedule_prefills`.
use llm_serve.Prelude.{
  ℕ, ◌+◌, ◌-◌, min, Bool, true, false, not, ◌&&◌, ◌||◌, Option, none, some, List, [], ◌∷◌, ◌++◌,
  length, Str, ltb, if◌then◌else◌, Exec, pure, ◌>>=◌, ◌>>◌,
}
use llm_serve.Engine.Blocks.{BlockManager}
use llm_serve.Engine.Blocks
use llm_serve.Engine.Prefix
use llm_serve.Engine.Prefix.{PrefixMatch, num_cached_blocks}
use llm_serve.Engine.Scheduler.State.{
  SeqStatus, SequenceGroup, prompt_len, prefill_done, is_finished, is_running, remaining_prefill,
  ScheduledPrefill, SchedulerOutput, Scheduler, Batch, is_in, deref, write_seq, on_sched, on_out,
  on_manager, on_shared, gets, read_clock, attempt,
}
use llm_serve.Engine.Scheduler.Lifecycle.{preempt, publish_prompt}

abbrev pub add_prefill : ScheduledPrefill → SchedulerOutput → SchedulerOutput
add_prefill p out = record out { prefills = out.prefills ++ p ∷ [] }

-- The next slice of a chunked prefill; the result is how much of the budget it used.
unfoldable pub prefill_chunk : Str → SequenceGroup → ℕ → Exec Batch ℕ
prefill_chunk k seq chunk = do
  grown ← attempt (on_manager (Blocks.append_tokens k chunk))
  if not grown then (do preempt k; pure 0) else (do
    let q = record seq { num_prefilled = seq.num_prefilled + chunk }
    on_sched (write_seq k q)
    on_out (
        add_prefill (record {
          seq_id = k;
          num_tokens = chunk;
          is_chunk = not (prefill_done q);
          cached_tokens = 0;
        }))
    pure chunk)

-- The loop over the snapshot of `running`.
unfoldable pub chunk_loop : List Str → ℕ → Exec Batch ℕ
unfolding deref
chunk_loop [] budget = pure budget
chunk_loop (k ∷ rest) budget = do
  seq ← deref k
  here ← gets (λ r. is_in k r.sched.running)
  chunked ← gets (λ r. r.sched.enable_chunked_prefill)
  if not (is_running seq.status) || not here
      then chunk_loop rest budget
      else if prefill_done seq || is_finished seq || ltb budget 1
      then chunk_loop rest budget
      else if not chunked && ltb budget (remaining_prefill seq)
      then chunk_loop rest budget
      else (do
        used ← prefill_chunk k seq (min (remaining_prefill seq) budget)
        chunk_loop rest (budget - used))

-- The guards for the head of the waiting queue, after its prefix was looked up: how many tokens
-- it prefills now, or none if admission stops here.
unfoldable pub admission : Scheduler → SequenceGroup → PrefixMatch → ℕ → Option ℕ
admission s seq found budget =
    let uncached = prompt_len seq - found.num_cached_tokens in
    let chunk = min uncached budget in
    if not s.enable_chunked_prefill && ltb budget uncached
    then none
    else if ltb chunk 1
    then none
    else if not (Blocks.can_allocate s.shared.blocks (prompt_len seq) (num_cached_blocks found))
    then none
    else some chunk

module _ (digest : Str → Str) where
  abbrev first_time : Option ℕ → Exec Batch (Option ℕ)
  first_time none = do now ← read_clock; pure (some now)
  first_time (some t) = pure (some t)

  -- A waiting sequence whose blocks were allocated starts to run.
  unfoldable pub start_seq : Str → SequenceGroup → PrefixMatch → ℕ → Exec Batch (Unit {0})
  unfolding read_clock
  start_seq k seq found chunk = do
    started ← first_time seq.first_scheduled_time
    let q = record seq {
      num_cached_tokens = found.num_cached_tokens;
      num_prefilled = found.num_cached_tokens + chunk;
      status = SeqStatus.running;
      first_scheduled_time = started;
    }
    on_sched (write_seq k q)
    on_sched (λ s. record s { running = s.running ++ k ∷ [] })
    on_sched (λ s. record s { total_prompt_tokens = s.total_prompt_tokens + chunk })
    on_out (
        add_prefill (record {
          seq_id = k;
          num_tokens = chunk;
          is_chunk = not (prefill_done q);
          cached_tokens = found.num_cached_tokens;
        }))
    if prefill_done q then publish_prompt digest k q else pure tt

  -- The head of the waiting queue takes its blocks; if the pool refuses, it goes back. The result
  -- is whether it runs now.
  unfoldable pub admit : Str → SequenceGroup → PrefixMatch → ℕ → Exec Batch Bool
  admit k seq found chunk = do
    granted ←
        attempt (on_manager (Blocks.allocate k (found.num_cached_tokens + chunk) found.block_ids))
    if not granted
        then (do on_sched (λ s. record s { waiting = k ∷ s.waiting }); pure false)
        else (do start_seq k seq found chunk; pure true)

  -- The `while` loop over the waiting queue; each round takes one off it. `preempted` is the set
  -- of the sequences that lost their blocks in this step.
  unfoldable pub admit_loop : List Str → List Str → ℕ → Exec Batch ℕ
  unfolding deref
  admit_loop preempted [] budget = pure budget
  admit_loop preempted (k ∷ rest) budget = do
    room ← gets (λ r. ltb (length r.sched.running) r.sched.max_num_seqs)
    if not room || ltb budget 1 || is_in k preempted then pure budget else (do
      seq ← deref k
      found ← on_shared (Prefix.find digest seq.prompt_token_ids)
      chosen ← gets (λ r. admission r.sched seq found budget)
      elim chosen [
        | none ↦ pure budget
        | some chunk ↦ (do
          on_sched (λ s. record s { waiting = rest })
          runs ← admit k seq found chunk
          if runs then admit_loop preempted rest (budget - chunk) else pure budget)
      ])

  unfoldable pub schedule_prefills : ℕ → Exec Batch ℕ
  schedule_prefills budget = do
    snapshot ← gets (λ r. r.sched.running)
    left ← chunk_loop snapshot budget
    queue ← gets (λ r. r.sched.waiting)
    preempted ← gets (λ r. r.out.preempted)
    admit_loop preempted queue left
