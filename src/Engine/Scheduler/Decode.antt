-- ===== src/Engine/Scheduler/Decode.antt =====
-- llm_serve/engine/scheduler.py: `_schedule_decodes` and `_schedule_swapped`.
use llm_serve.Prelude.{
  ℕ, zero, suc, ◌+◌, ◌-◌, max, not, ◌||◌, Option, none, some, List, [], ◌∷◌, ◌++◌, length, Str,
  str_eq, ltb, leb, if◌then◌else◌, Exec, pure, ◌>>=◌, ◌>>◌,
}
use llm_serve.Engine.Blocks.{BlockManager}
use llm_serve.Engine.Blocks
use llm_serve.Engine.Scheduler.State.{
  SeqStatus, SequenceGroup, prefill_done, is_finished, is_running, num_computed_tokens, Scheduler,
  Batch, is_in, deref, write_seq, on_sched, on_out, on_manager, gets, priority_lt,
}
use llm_serve.Engine.Scheduler.Lifecycle.{pick_preemption_victim, preempt, finish_seq}

-- The victim, or the sequence itself where nothing newer is running.
abbrev pub yielding : SequenceGroup → Option SequenceGroup → SequenceGroup
yielding seq none = seq
yielding seq (some victim) = if priority_lt victim seq then seq else victim

unfoldable pub choose_victim : Str → SequenceGroup → Scheduler → SequenceGroup
choose_victim k seq s = yielding seq (pick_preemption_victim k s)

-- The `while` loop that frees blocks for the sequence `k`. Each round takes a sequence off
-- `running`, so that many rounds are fuel enough.
unfoldable pub make_room : ℕ → Str → SequenceGroup → Exec Batch (Unit {0})
make_room zero k seq = pure tt
make_room (suc fuel) k seq = do
  fits ← gets (λ r. Blocks.can_append r.sched.shared.blocks k 1)
  if fits then pure tt else (do
    victim ← gets (λ r. choose_victim k seq r.sched)
    preempt victim.seq_id
    if str_eq victim.seq_id k then pure tt else make_room fuel k seq)

module _ (digest : Str → Str) where
  -- One generated token for the sequence.
  unfoldable pub decode_token : Str → Exec Batch (Unit {0})
  unfolding deref
  decode_token k = do
    on_manager (Blocks.append_tokens k 1)
    q ← deref k
    let q' = record q { num_generated = q.num_generated + 1 }
    on_sched (write_seq k q')
    on_sched (λ s. record s { total_generation_tokens = s.total_generation_tokens + 1 })
    on_out (λ out. record out { decodes = out.decodes ++ k ∷ [] })
    if leb q'.max_tokens q'.num_generated then finish_seq digest k else pure tt

  -- A sequence that may decode: room is made, and it decodes unless it was preempted itself. The
  -- result is how much of the budget it used.
  unfoldable pub decode_seq : Str → SequenceGroup → Exec Batch ℕ
  unfolding deref
  decode_seq k seq = do
    running ← gets (λ r. length r.sched.running)
    make_room running k seq
    q ← deref k
    if is_running q.status then (do decode_token k; pure 1) else pure 0

  -- The loop over the snapshot of `running`.
  unfoldable pub decode_loop : List Str → ℕ → Exec Batch ℕ
  unfolding deref
  decode_loop [] budget = pure budget
  decode_loop (k ∷ rest) budget = do
    seq ← deref k
    here ← gets (λ r. is_in k r.sched.running)
    if not (is_running seq.status) || not here
        then decode_loop rest budget
        else if is_finished seq || not (prefill_done seq)
        then decode_loop rest budget
        else if ltb budget 1
        then pure budget
        else (do used ← decode_seq k seq; decode_loop rest (budget - used))

  unfoldable pub schedule_decodes : ℕ → Exec Batch ℕ
  schedule_decodes budget = do snapshot ← gets (λ r. r.sched.running); decode_loop snapshot budget

abbrev pub resume : Str → SequenceGroup → Exec Batch (Unit {0})
resume k seq = do
  on_manager (Blocks.allocate k (max 1 (num_computed_tokens seq)) [])
  on_sched (write_seq k (record seq { status = SeqStatus.running }))
  on_sched (λ s. record s { running = s.running ++ k ∷ [] })

-- The `while` loop over the swapped sequences; each round takes one off the queue.
unfoldable pub resume_loop : List Str → Exec Batch (Unit {0})
unfolding deref
resume_loop [] = pure tt
resume_loop (k ∷ rest) = do
  room ← gets (λ r. ltb (length r.sched.running) r.sched.max_num_seqs)
  if not room then pure tt else (do
    seq ← deref k
    fits ← gets (λ r. Blocks.can_allocate r.sched.shared.blocks (num_computed_tokens seq) 0)
    if not fits
        then pure tt
        else (do on_sched (λ s. record s { swapped = rest }); resume k seq; resume_loop rest))

unfoldable pub schedule_swapped : Exec Batch (Unit {0})
schedule_swapped = do queue ← gets (λ r. r.sched.swapped); resume_loop queue
