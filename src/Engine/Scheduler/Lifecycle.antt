-- ===== src/Engine/Scheduler/Lifecycle.antt =====
-- llm_serve/engine/scheduler.py: preemption, and how a sequence ends.
use llm_serve.Prelude.{
  ◌+◌, Bool, true, false, not, ◌&&◌, Option, none, some, List, [], ◌∷◌, ◌++◌, Str, str_eq, Dict,
  lookup, if◌then◌else◌, ok, Exec, pure, ◌>>=◌, ◌>>◌,
}
use llm_serve.Engine.Blocks.{BlockManager, block_table}
use llm_serve.Engine.Blocks
use llm_serve.Engine.Prefix
use llm_serve.Engine.Scheduler.State.{
  SeqStatus, PreemptionMode, SequenceGroup, prefill_done, is_finished, reset_for_recompute,
  priority_lt, SchedulerOutput, new_output, Scheduler, Batch, is_in, erase, deref, write_seq,
  on_sched, on_out, on_shared, on_manager, read_clock, gets,
}

-- The sequences that references stand for; a reference that nothing answers is left out.
unfoldable pub seqs_of : Dict SequenceGroup → List Str → List SequenceGroup
seqs_of d [] = []
seqs_of d (k ∷ q) = let rest = seqs_of d q in elim (lookup k d) [ none ↦ rest | some s ↦ s ∷ rest ]

-- The candidates of `_pick_preemption_victim`.
unfoldable pub candidates : Str → List SequenceGroup → List SequenceGroup
candidates exclude [] = []
candidates exclude (q ∷ qs) =
    let rest = candidates exclude qs in
    if not (str_eq q.seq_id exclude) && not (is_finished q) then q ∷ rest else rest

-- `max(…, key=_priority)`: the first of the greatest.
unfoldable pub newest_from : SequenceGroup → List SequenceGroup → SequenceGroup
newest_from best [] = best
newest_from best (q ∷ qs) = newest_from (if priority_lt best q then q else best) qs

unfoldable pub newest : List SequenceGroup → Option SequenceGroup
newest [] = none
newest (q ∷ qs) = some (newest_from q qs)

unfoldable pub pick_preemption_victim : Str → Scheduler → Option SequenceGroup
pick_preemption_victim exclude s = newest (candidates exclude (seqs_of s.by_id s.running))

abbrev pub count_preemption : Str → SchedulerOutput → SchedulerOutput
count_preemption k out = record out { preempted = out.preempted ++ k ∷ [] }

-- The branches of `_preempt` on the mode: the sequence is queued again.
abbrev pub requeue : PreemptionMode → Str → SequenceGroup → Scheduler → Scheduler
requeue PreemptionMode.swap k q s =
    record (write_seq k
      (record q { status = SeqStatus.swapped; preemption_count = q.preemption_count + 1 }) s) {
        swapped = s.swapped ++ k ∷ [];
      }
requeue PreemptionMode.recompute k q s = record (write_seq k (reset_for_recompute q) s) {
  waiting = k ∷ s.waiting;
}

-- `if seq in self.running: self.running.remove(seq)`
unfoldable pub leave_running : Str → Scheduler → Scheduler
leave_running k s = record s {
  running = if is_in k s.running then erase k s.running else s.running;
}

unfoldable pub preempt : Str → Exec Batch (Unit {0})
unfolding deref leave_running
preempt k = do
  on_manager (Blocks.free k)
  on_sched (leave_running k)
  on_sched (λ s. record s { total_preemptions = s.total_preemptions + 1 })
  on_out (count_preemption k)
  q ← deref k
  on_sched (λ s. requeue s.preemption_mode k q s)

module _ (digest : Str → Str) where
  -- Publishes the prompt's blocks for reuse.
  unfoldable pub publish_prompt : Str → SequenceGroup → Exec Batch (Unit {0})
  publish_prompt k q = do
    table ← gets (λ r. block_table r.sched.shared.blocks k)
    on_shared (Prefix.add digest q.prompt_token_ids table)
    pure tt

  -- `_finish`
  unfoldable pub finish_seq : Str → Exec Batch (Unit {0})
  unfolding deref leave_running read_clock
  finish_seq k = do
    q ← deref k
    if prefill_done q then publish_prompt k q else pure tt
    on_manager (Blocks.free k)
    on_sched (leave_running k)
    now ← read_clock
    on_sched (write_seq k (record q { status = SeqStatus.finished; finish_time = some now }))
    on_sched (λ s. record s { finished_count = s.finished_count + 1 })
    on_out (λ out. record out { finished = out.finished ++ k ∷ [] })

  abbrev pub finish_known : Str → Option SequenceGroup → Exec Batch (Unit {0})
  finish_known k none r = (ok tt, r)
  finish_known k (some q) r = if is_finished q then (ok tt, r) else finish_seq k r

  -- `finish`: the output that `_finish` fills is a fresh one, which is dropped.
  unfoldable pub finish : Str → Exec Scheduler (Unit {0})
  finish k s =
      let run =
        finish_known k (lookup k s.by_id) (record { sched = s; out = new_output s.step_count }) in
      (run.0, run.1.sched)

unfoldable pub drop_from : Str → List Str → List Str
drop_from k q = if is_in k q then erase k q else q

abbrev pub abort_seq : Str → SequenceGroup → Exec Batch Bool
abort_seq k q = do
  on_manager (Blocks.free k)
  on_sched (λ s. record s {
    waiting = drop_from k s.waiting;
    running = drop_from k s.running;
    swapped = drop_from k s.swapped;
  })
  now ← read_clock
  on_sched (write_seq k (record q { status = SeqStatus.aborted; finish_time = some now }))
  pure true

abbrev pub abort_known : Str → Option SequenceGroup → Exec Batch Bool
abort_known k none r = (ok false, r)
abort_known k (some q) r = if is_finished q then (ok false, r) else abort_seq k q r

unfoldable pub abort : Str → Exec Scheduler Bool
unfolding drop_from read_clock
abort k s =
    let run =
      abort_known k (lookup k s.by_id) (record { sched = s; out = new_output s.step_count }) in
    (run.0, run.1.sched)
