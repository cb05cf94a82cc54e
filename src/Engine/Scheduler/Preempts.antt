-- ===== src/Engine/Scheduler/Preempts.antt =====
-- Proofs about `_preempt` of llm_serve/engine/scheduler.py.
use llm_serve.Prelude.{
  ℕ, ◌+◌, ◌<◌, ◌≡◌, refl, ap, ◌∙◌, true, some, List, [], ◌∷◌, ◌++◌, Str, Dict, str_eq_iff, lookup,
  insert, lookup-insert, lookup-remove, is_some, Runs, arith,
}
use llm_serve.Engine.Blocks.Release.{without, free_lem}
use llm_serve.Engine.Prefix.Find.{IsPinned, pins}
use llm_serve.Engine.Scheduler.State.{
  SeqStatus, PreemptionMode, SequenceGroup, Scheduler, Batch, prompt_len, num_computed_tokens,
  reset_for_recompute, is_in, erase,
}
use llm_serve.Engine.Scheduler.Queues.{occ, occ-append, is_in-occ, occ-erase, length-erase}
use llm_serve.Engine.Scheduler.Lifecycle.{preempt, requeue, count_preemption}
use llm_serve.Engine.Scheduler.Invariant.{Inv, Moves, SameTokens, seat, in_running}

-- The scheduler after the sequence lost its blocks and its place in `running`.
abbrev unseated : Scheduler → Str → List ℕ → List ℕ → Scheduler
unseated s k f rc = record s {
  shared = record (s.shared) { blocks = without s.shared.blocks k f rc };
  running = erase k s.running;
  total_preemptions = s.total_preemptions + 1;
}

-- The running sequence `q` that `k` stands for.
pub record Running (s : Scheduler) (k : Str) (q : SequenceGroup) : Type 0 where
  pub found : lookup k s.by_id ≡ some q
  pub status : q.status ≡ SeqStatus.running

module _ {s : Scheduler} {k : Str} {q : SequenceGroup} (v : Inv s) (a : Running s k q) where
  pub running-occ : occ k s.running ≡ 1
  running-occ = v.runs k ∙ ap (seat in_running) a.found ∙ ap in_running a.status

  pub running-named : (q.seq_id ≡ k) × (0 < prompt_len q) × (0 < num_computed_tokens q)
  running-named = ground (arith, v.names k, a.found, a.status)

  requeue-Inv :
      (mode : PreemptionMode) (f rc : List ℕ)
      → IsPinned (unseated s k f rc).shared
      → Inv (requeue mode k q (unseated s k f rc))
  requeue-Inv PreemptionMode.swap f rc p =
      let q' = record q { status = SeqStatus.swapped; preemption_count = q.preemption_count + 1 } in
      let there = running-occ in
      let named = running-named in
      record {
        pinned = p;
        unlimited = v.unlimited;
        waits = λ j.
            ground
              (arith, v.waits j, a.found, a.status, lookup-insert k j q' s.by_id, str_eq_iff k j);
        runs = λ j. ground (
          arith,
          v.runs j,
          a.found,
          a.status,
          lookup-insert k j q' s.by_id,
          str_eq_iff k j,
          occ-erase j k s.running,
        );
        swaps = λ j. ground (
          arith,
          v.swaps j,
          a.found,
          a.status,
          lookup-insert k j q' s.by_id,
          str_eq_iff k j,
          occ-append j s.swapped (k ∷ []),
        );
        tokens = λ j. ground (
          arith,
          v.tokens j,
          lookup-insert k j q' s.by_id,
          lookup-remove k j s.shared.blocks.lengths,
        );
        names = λ j. ground (arith, v.names j, named, lookup-insert k j q' s.by_id, str_eq_iff k j);
        capped = omega (arith, v.capped, length-erase k s.running);
      }
  requeue-Inv PreemptionMode.recompute f rc p =
      let q' = reset_for_recompute q in
      let there = running-occ in
      let named = running-named in
      record {
        pinned = p;
        unlimited = v.unlimited;
        waits = λ j.
            ground
              (arith, v.waits j, a.found, a.status, lookup-insert k j q' s.by_id, str_eq_iff k j);
        runs = λ j. ground (
          arith,
          v.runs j,
          a.found,
          a.status,
          lookup-insert k j q' s.by_id,
          str_eq_iff k j,
          occ-erase j k s.running,
        );
        swaps = λ j.
            ground
              (arith, v.swaps j, a.found, a.status, lookup-insert k j q' s.by_id, str_eq_iff k j);
        tokens = λ j. ground (
          arith,
          v.tokens j,
          lookup-insert k j q' s.by_id,
          lookup-remove k j s.shared.blocks.lengths,
        );
        names = λ j. ground (arith, v.names j, named, lookup-insert k j q' s.by_id, str_eq_iff k j);
        capped = omega (arith, v.capped, length-erase k s.running);
      }

-- What is left of a sequence that was preempted.
abbrev pub requeued : PreemptionMode → SequenceGroup → SequenceGroup
requeued PreemptionMode.swap q = record q {
  status = SeqStatus.swapped;
  preemption_count = q.preemption_count + 1;
}
requeued PreemptionMode.recompute q = reset_for_recompute q

-- What `_preempt` of the running sequence `q` does: nothing else moves, and the sequence waits or is
-- swapped out.
pub record Preempted (k : Str) (q : SequenceGroup) (r t : Batch) : Type 0 where
  pub moves : Moves 0 r t
  pub same : SameTokens r t
  pub by_id : t.sched.by_id ≡ insert k (requeued r.sched.preemption_mode q) r.sched.by_id
  pub running : t.sched.running ≡ erase k r.sched.running
  pub listed : t.out.preempted ≡ r.out.preempted ++ k ∷ []

requeue-fields :
    (mode : PreemptionMode) (k : Str) (q : SequenceGroup) (s : Scheduler)
    → ((requeue mode k q s).by_id ≡ insert k (requeued mode q) s.by_id)
      × ((requeue mode k q s).running ≡ s.running)
      × ((requeue mode k q s).max_num_batched_tokens ≡ s.max_num_batched_tokens)
      × ((requeue mode k q s).shared ≡ s.shared)
requeue-fields PreemptionMode.swap k q s = (refl, refl, refl, refl)
requeue-fields PreemptionMode.recompute k q s = (refl, refl, refl, refl)

pub known-insert :
    (k j : Str) (q : SequenceGroup) (d : Dict SequenceGroup)
    → is_some (lookup j d) ≡ true
    → is_some (lookup j (insert k q d)) ≡ true
known-insert k j q d h = ground (arith, lookup-insert k j q d)

-- `_preempt` of a running sequence of a scheduler that meets the invariant raises nothing and
-- keeps the invariant: the sequence leaves `running`, is marked as waiting or swapped out as the
-- preemption mode says, is listed as preempted, and no other sequence changes.
pub preempt_lem :
    (k : Str) (q : SequenceGroup) (r : Batch)
    → Inv r.sched
    → Running r.sched k q
    → Runs (preempt k) r (λ _ t. Preempted k q r t)
unfolding preempt
preempt_lem k q r v a =
    let s = r.sched in
    let (freed, f, rc, run, valid, size) =
      free_lem s.shared.blocks (pins s.shared) k v.pinned.manager in
    let p : IsPinned (unseated s k f rc).shared = record {
      manager = valid;
      distinct = v.pinned.distinct;
    } in
    let there : is_in k s.running ≡ true = ground (arith, is_in-occ k s.running, running-occ v a) in
    let (ids, queue, limit, objects) = requeue-fields s.preemption_mode k q (unseated s k f rc) in
    record {
      value = tt;
      final = record {
        sched = requeue s.preemption_mode k q (unseated s k f rc);
        out = count_preemption k r.out;
      };
      run = rw (run, there, a.found);
      post = record {
        moves = record {
          valid = requeue-Inv v a s.preemption_mode f rc p;
          known = λ j h. rw ids (known-insert k j _ s.by_id h);
          limit = limit;
          keeps = λ h b e. rw objects e;
          tokens = omega arith;
        };
        by_id = ids;
        running = queue;
        listed = refl;
        same = record { decodes = refl; prefills = refl };
      };
    }
