-- ===== src/Engine/Scheduler/Early.antt =====
-- `finish` of llm_serve/engine/scheduler.py, for a running and for a queued sequence.
use llm_serve.Prelude.{
  ◌+◌, ◌≡◌, refl, false, inl, inr, some, [], ◌∷◌, Str, str_eq_iff, lookup, insert, lookup-insert,
  ok, arith,
}
use llm_serve.Engine.Blocks.Release.{without, free_lem}
use llm_serve.Engine.Prefix.Find.{pins}
use llm_serve.Engine.Scheduler.State.{
  SequenceGroup, Scheduler, Batch, new_output, is_finished, is_in,
}
use llm_serve.Engine.Scheduler.Queues.{is_in-occ}
use llm_serve.Engine.Scheduler.Lifecycle.{finish, finish_seq}
use llm_serve.Engine.Scheduler.Invariant.{Inv}
use llm_serve.Engine.Scheduler.Preempts.{Running}
use llm_serve.Engine.Scheduler.Finishes.{finish_seq_lem, publish_if, finished}
use llm_serve.Engine.Scheduler.Joins.{Idle}
use llm_serve.Engine.Scheduler.Aborts.{Settled}

module _ (digest : Str → Str) (k : Str) (s : Scheduler) (v : Inv s) where
  abbrev in_batch : Batch
  in_batch = record { sched = s; out = new_output s.step_count }

  pub finish-Settled : Settled k s → finish digest k s ≡ (ok tt, s)
  unfolding finish
  finish-Settled h = elim h [ inl e ↦ rw e refl | inr (q, e, f) ↦ rw (e, f) refl ]

  -- `finish` of a running sequence of a scheduler that meets the invariant returns, keeps the
  -- invariant, and marks the sequence finished at the next clock reading.
  pub finish-Running :
      (q : SequenceGroup)
      → Running s k q
      → (t : Scheduler) × (finish digest k s ≡ (ok tt, t))
        × Inv t
        × (lookup k t.by_id ≡ some (finished q (s.clock s.readings)))
  unfolding finish
  finish-Running q a =
      let f = finish_seq_lem digest k q in_batch v a in
      let goes_on : is_finished q ≡ false = rw a.status refl in
      (
        f.final.sched,
        rw (a.found, goes_on, f.run) refl,
        f.post.moves.valid,
        rw f.post.by_id (
            ground
              (arith, lookup-insert k k (finished q (s.clock s.readings)) s.by_id, str_eq_iff k k)),
      )

  queued_run :
      (q : SequenceGroup)
      → Idle s k q
      → (t : Batch) × (finish_seq digest k in_batch ≡ (ok tt, t))
        × (t.sched.by_id ≡ insert k (finished q (s.clock s.readings)) s.by_id)
        × (t.sched.waiting ≡ s.waiting)
        × (t.sched.swapped ≡ s.swapped)
  unfolding finish_seq
  queued_run q a =
      let (t, published, e) = publish_if digest k q in_batch v in
      let (freed, f, rc, run, valid, size) = free_lem t.blocks (pins t) k e.pinned.manager in
      let absent : is_in k s.running ≡ false =
        ground (arith, is_in-occ k s.running, v.runs k, a.found, a.idle) in
      (
        record {
          sched = record s {
            shared = record t { blocks = without t.blocks k f rc };
            by_id = insert k (finished q (s.clock s.readings)) s.by_id;
            finished_count = s.finished_count + 1;
            readings = s.readings + 1;
          };
          out = record (in_batch.out) { finished = k ∷ [] };
        },
        rw (a.found, published, run, absent) refl,
        refl,
        refl,
        refl,
      )

  -- `finish` of an unfinished sequence that does not run, on a scheduler that meets the invariant,
  -- marks it finished at the next clock reading, but leaves the waiting and the swapped queue as
  -- they were, so that the sequence stays queued.
  pub finish-queued :
      (q : SequenceGroup)
      → Idle s k q
      → is_finished q ≡ false
      → (t : Scheduler) × (finish digest k s ≡ (ok tt, t))
        × (lookup k t.by_id ≡ some (finished q (s.clock s.readings)))
        × (t.waiting ≡ s.waiting)
        × (t.swapped ≡ s.swapped)
  unfolding finish
  finish-queued q a goes_on =
      let (t, run, ids, waits, swaps) = queued_run q a in
      let found = lookup-insert k k (finished q (s.clock s.readings)) s.by_id in
      (
        t.sched,
        rw (a.found, goes_on, run) refl,
        rw ids (ground (arith, found, str_eq_iff k k)),
        waits,
        swaps,
      )
