-- ===== src/Engine/Scheduler/Finishes.antt =====
-- Proofs about `_finish` of llm_serve/engine/scheduler.py.
use llm_serve.Prelude.{
  ℕ, ◌+◌, ◌<◌, ◌≡◌, refl, ◌∙◌, true, none, some, List, [], ◌∷◌, ◌++◌, count, count-held-lookup, Str,
  str_eq_iff, lookup, insert, lookup-insert, lookup-remove, Bool-cases, Option-cases, inl, inr, ok,
  Runs, pure, if◌then◌else◌, arith,
}
use llm_serve.Engine.Blocks.{BlockManager, block_table}
use llm_serve.Engine.Blocks.Invariant.{owners}
use llm_serve.Engine.Blocks.Release.{without, free_lem}
use llm_serve.Engine.Prefix.{Shared}
use llm_serve.Engine.Prefix.Find.{IsPinned, pins}
use llm_serve.Engine.Prefix.Publish.{Keeps}
use llm_serve.Engine.Prefix.Evict.{evicted}
use llm_serve.Engine.Prefix.Add.{add_lem}
use llm_serve.Engine.Scheduler.State.{
  SeqStatus, SequenceGroup, Scheduler, Batch, prefill_done, is_in, erase,
}
use llm_serve.Engine.Scheduler.Queues.{is_in-occ, occ-erase, length-erase}
use llm_serve.Engine.Scheduler.Lifecycle.{publish_prompt, finish_seq}
use llm_serve.Engine.Scheduler.Invariant.{Inv, Moves, SameTokens}
use llm_serve.Engine.Scheduler.Preempts.{Running, running-occ, running-named, known-insert}

-- Another shared state over the same sequences, where no entry is lost.
pub record Reshared (s t : Shared) : Type 0 where
  pub pinned : IsPinned t
  pub lengths : t.blocks.lengths ≡ s.blocks.lengths
  pub unlimited : t.cache.max_entries ≡ s.cache.max_entries
  pub keeps : Keeps s.cache.entries t.cache.entries

pub Reshared-refl : (s : Shared) → IsPinned s → Reshared s s
Reshared-refl s p = record { pinned = p; lengths = refl; unlimited = refl; keeps = λ h b e. e }

abbrev pub with_shared : Batch → Shared → Batch
with_shared r t = record r { sched = record (r.sched) { shared = t } }

-- The blocks of a table have owners.
pub table-owned :
    (m : BlockManager) (p : ℕ → ℕ) (k : Str) (b : ℕ)
    → 0 < count b (block_table m k)
    → 0 < owners m p b
unfolding block_table
table-owned m p k b h = elim (Option-cases (lookup k m.tables)) [
  | inl e ↦ absurd (ground arith)
  | inr (t, e) ↦ ground (arith, count-held-lookup b k t m.tables e)
]

module _ (digest : Str → Str) where
  -- What publishing a prompt does.
  abbrev pub PublishedPrompt : Str → SequenceGroup → Batch → Type 0
  PublishedPrompt k q r =
      (t : Shared) × (publish_prompt digest k q r ≡ (ok tt, with_shared r t))
      × Reshared r.sched.shared t

  pub publish_prompt_lem :
      (k : Str) (q : SequenceGroup) (r : Batch)
      → IsPinned r.sched.shared
      → r.sched.shared.cache.max_entries ≡ none
      → PublishedPrompt k q r
  unfolding publish_prompt
  publish_prompt_lem k q r p none_max =
      let s = r.sched.shared in
      let table = block_table s.blocks k in
      let done = add_lem digest s q.prompt_token_ids table p (table-owned s.blocks (pins s) k) in
      (
        evicted s done.entries done.evictions done.free done.counts,
        rw done.run,
        record {
          pinned = done.valid;
          lengths = refl;
          unlimited = refl;
          keeps = (done.unlimited none_max).1;
        },
      )

  -- The first part of `_finish`.
  pub publish_if :
      (k : Str) (q : SequenceGroup) (r : Batch)
      → Inv r.sched
      → (t : Shared) × ((if prefill_done q then publish_prompt digest k q else pure tt) r
          ≡ (ok tt, with_shared r t))
        × Reshared r.sched.shared t
  publish_if k q r v = elim (Bool-cases (prefill_done q)) [
    | inl e ↦ rw e (publish_prompt_lem k q r v.pinned v.unlimited)
    | inr e ↦ rw e (r.sched.shared, refl, Reshared-refl r.sched.shared v.pinned)
  ]

abbrev pub finished : SequenceGroup → ℕ → SequenceGroup
finished q now = record q { status = SeqStatus.finished; finish_time = some now }

-- The scheduler after `_finish`, over the shared state `t` and the free list and counts.
abbrev closed : Scheduler → Shared → Str → SequenceGroup → List ℕ → List ℕ → Scheduler
closed s t k q f rc = record s {
  shared = record t { blocks = without t.blocks k f rc };
  running = erase k s.running;
  by_id = insert k (finished q (s.clock s.readings)) s.by_id;
  finished_count = s.finished_count + 1;
  readings = s.readings + 1;
}

closed-Inv :
    (s : Scheduler) (t : Shared) (k : Str) (q : SequenceGroup) (f rc : List ℕ)
    → Inv s
    → Running s k q
    → Reshared s.shared t
    → IsPinned (closed s t k q f rc).shared
    → Inv (closed s t k q f rc)
closed-Inv s t k q f rc v a e p =
    let q' = finished q (s.clock s.readings) in
    let there = running-occ v a in
    let named = running-named v a in
    record {
      pinned = p;
      unlimited = e.unlimited ∙ v.unlimited;
      waits = λ j.
          ground
            (arith, v.waits j, a.found, a.status, lookup-insert k j q' s.by_id, str_eq_iff k j);
      runs = λ j. ground (
        arith,
        v.runs j,
        a.found,
        a.status,
        lookup-insert k j q' s.by_id,
        str_eq_iff k j,
        occ-erase j k s.running,
      );
      swaps = λ j.
          ground
            (arith, v.swaps j, a.found, a.status, lookup-insert k j q' s.by_id, str_eq_iff k j);
      tokens = λ j. rw e.lengths (
          ground (
            arith,
            v.tokens j,
            lookup-insert k j q' s.by_id,
            lookup-remove k j s.shared.blocks.lengths,
          ));
      names = λ j. ground (arith, v.names j, named, lookup-insert k j q' s.by_id, str_eq_iff k j);
      capped = omega (arith, v.capped, length-erase k s.running);
    }

-- What `_finish` does.
pub record Finished (k : Str) (q : SequenceGroup) (r t : Batch) : Type 0 where
  pub moves : Moves 0 r t
  pub same : SameTokens r t
  pub by_id : t.sched.by_id ≡ insert k (finished q (r.sched.clock r.sched.readings)) r.sched.by_id
  pub listed : t.out.finished ≡ r.out.finished ++ k ∷ []

-- `_finish` of a running sequence of a scheduler that meets the invariant raises nothing and keeps
-- the invariant: the sequence is marked finished at the next clock reading and is listed as
-- finished, and no cached block is dropped.
pub finish_seq_lem :
    (digest : Str → Str) (k : Str) (q : SequenceGroup) (r : Batch)
    → Inv r.sched
    → Running r.sched k q
    → Runs (finish_seq digest k) r (λ _ t. Finished k q r t)
unfolding finish_seq
finish_seq_lem digest k q r v a =
    let s = r.sched in
    let (t, published, e) = publish_if digest k q r v in
    let (freed, f, rc, run, valid, size) = free_lem t.blocks (pins t) k e.pinned.manager in
    let p : IsPinned (closed s t k q f rc).shared = record {
      manager = valid;
      distinct = e.pinned.distinct;
    } in
    let there : is_in k s.running ≡ true = ground (arith, is_in-occ k s.running, running-occ v a) in
    record {
      value = tt;
      final = record {
        sched = closed s t k q f rc;
        out = record (r.out) { finished = r.out.finished ++ k ∷ [] };
      };
      run = rw (a.found, published, run, there);
      post = record {
        moves = record {
          valid = closed-Inv s t k q f rc v a e p;
          known = λ j h. known-insert k j _ s.by_id h;
          limit = refl;
          keeps = e.keeps;
          tokens = omega arith;
        };
        by_id = refl;
        listed = refl;
        same = record { decodes = refl; prefills = refl };
      };
    }
