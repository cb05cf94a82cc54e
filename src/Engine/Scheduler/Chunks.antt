-- ===== src/Engine/Scheduler/Chunks.antt =====
-- The first loop of `_schedule_prefills` in llm_serve/engine/scheduler.py: the running sequences
-- and their next slices.
use llm_serve.Prelude.{
  ℕ, ◌+◌, ◌-◌, ◌≤◌, ◌≡◌, refl, not, ◌||◌, ◌&&◌, inl, inr, some, List, [], ◌∷◌, Str, str_eq_iff,
  lookup, min, arith, some_of, pure, ◌>>=◌, ltb, Bool-cases, Runs, Runs-here, Runs-jump, Runs-bind,
  Runs-if, Runs-weaken, if◌then◌else◌,
}
use llm_serve.Engine.Blocks
use llm_serve.Engine.Blocks.Append.{append_tokens_full}
use llm_serve.Engine.Scheduler.State.{
  SequenceGroup, Batch, ScheduledPrefill, is_running, is_in, is_finished, prefill_done,
  remaining_prefill, deref,
}
use llm_serve.Engine.Scheduler.Lifecycle.{preempt}
use llm_serve.Engine.Scheduler.Prefill.{add_prefill, prefill_chunk, chunk_loop}
use llm_serve.Engine.Scheduler.Invariant.{
  Inv, Moves, Moves-refl, Moves-same, Known, prefilled-append, Prefilling, Prefilling-trans,
}
use llm_serve.Engine.Scheduler.Preempts.{Running, known-insert, preempt_lem}
use llm_serve.Engine.Scheduler.Grows.{Longer, Grown, regrown, grow_running, regrown-Inv}
use llm_serve.Engine.Scheduler.Decodes.{may_run-running}

-- The sequence after the slice.
abbrev sliced : SequenceGroup → ℕ → SequenceGroup
sliced q n = record q { num_prefilled = q.num_prefilled + n }

abbrev slice_of : Str → SequenceGroup → ℕ → ScheduledPrefill
slice_of k q n = record {
  seq_id = k;
  num_tokens = n;
  is_chunk = not (prefill_done (sliced q n));
  cached_tokens = 0;
}

abbrev after_slice : (r : Batch) (k : Str) (q : SequenceGroup) (n : ℕ) → Grown r.sched k q n → Batch
after_slice r k q n g = record {
  sched = regrown r.sched g.manager k (sliced q n);
  out = add_prefill (slice_of k q n) r.out;
}

module _ (k : Str) (q : SequenceGroup) (r : Batch) (v : Inv r.sched) (a : Running r.sched k q) where
  after_slice-Moves : (n : ℕ) (g : Grown r.sched k q n) → Moves n r (after_slice r k q n g)
  after_slice-Moves n g =
      let longer : Longer q n (sliced q n) = record {
        seq_id = refl;
        status = refl;
        prompt = refl;
        computed = omega arith;
      } in
      record {
        valid = regrown-Inv v a n (sliced q n) g longer;
        known = λ j h. known-insert k j _ r.sched.by_id h;
        limit = refl;
        keeps = λ h b e. e;
        tokens = omega (arith, prefilled-append r.out.prefills (slice_of k q n ∷ []));
      }

  -- A sequence prefills the slice, or is preempted if the pool refuses it.
  prefill_chunk_lem :
      (n : ℕ) → Runs (prefill_chunk k q n) r (λ used t. Prefilling used r t × (used ≤ n))
  unfolding prefill_chunk
  prefill_chunk_lem n = elim (Bool-cases (Blocks.can_append r.sched.shared.blocks k n)) [
    | inl fits ↦
        let g = grow_running v a n fits in
        Runs-jump {n = pure n} {t = after_slice r k q n g} (rw g.run) (
          Runs-here n (after_slice r k q n g) refl
            (record { moves = after_slice-Moves n g; decodes = refl }, omega arith))
    | inr full ↦
        Runs-jump {n = preempt k >>= λ _. pure 0} {t = r}
          (rw (append_tokens_full r.sched.shared.blocks k n full))
          (Runs-bind (preempt_lem k q r v a) (λ _ t p.
            Runs-here 0 t refl (record { moves = p.moves; decodes = p.same.decodes }, omega arith)))
  ]

-- What a loop promises that spends from the budget.
abbrev pub Spends : ℕ → Batch → ℕ → Batch → Type 0
Spends budget r left t = Moves (budget - left) r t × (left ≤ budget)

-- The same for prefills only.
abbrev pub Fills : ℕ → Batch → ℕ → Batch → Type 0
Fills budget r left t = Prefilling (budget - left) r t × (left ≤ budget)

chunk_round :
    (k : Str) (ks : List Str) (budget : ℕ) (q : SequenceGroup) (r : Batch)
    → Inv r.sched
    → lookup k r.sched.by_id ≡ some q
    → ((left : ℕ) (t : Batch)
        → Inv t.sched
        → (Known (k ∷ ks) r.sched → Known ks t.sched)
        → Runs (chunk_loop ks left) t (λ b u. Fills left t b u))
    → Runs (chunk_loop (k ∷ ks) budget) r (λ left t. Fills budget r left t)
unfolding chunk_loop deref
chunk_round k ks budget q r v found rest =
    let here = is_in k r.sched.running in
    let skip = rest budget r v (λ known j h. known j (omega arith)) in
    Runs-jump
      {n = if not (is_running q.status) || not here
        then chunk_loop ks budget
        else if prefill_done q || is_finished q || ltb budget 1
        then chunk_loop ks budget
        else if not r.sched.enable_chunked_prefill && ltb budget (remaining_prefill q)
        then chunk_loop ks budget
        else (prefill_chunk k q (min (remaining_prefill q) budget) >>= λ used.
            chunk_loop ks (budget - used))}
      {t = r} (rw found)
      (Runs-if (not (is_running q.status) || not here) (λ _. skip)
        (λ runs.
          Runs-if (prefill_done q || is_finished q || ltb budget 1) (λ _. skip)
            (λ _.
              Runs-if (not r.sched.enable_chunked_prefill && ltb budget (remaining_prefill q))
                (λ _. skip)
                (λ _.
                  let a : Running r.sched k q = record {
                    found = found;
                    status = may_run-running q.status here runs;
                  } in
                  Runs-bind (prefill_chunk_lem k q r v a (min (remaining_prefill q) budget))
                    (λ used t p.
                      Runs-weaken
                        (rest (budget - used) t p.0.moves.valid
                          (λ known j h. p.0.moves.known j (known j (omega arith))))
                        (λ left u m.
                          (Prefilling-trans (grind arith) p.0 m.0, omega (arith, m.1))))))))

pub chunk_loop_lem :
    (ks : List Str) (budget : ℕ) (r : Batch)
    → Inv r.sched
    → Known ks r.sched
    → Runs (chunk_loop ks budget) r (λ left t. Fills budget r left t)
unfolding chunk_loop
chunk_loop_lem [] budget r v known =
    Runs-here budget r refl
      (record { moves = Moves-same (omega arith) (Moves-refl r v); decodes = refl }, omega arith)
chunk_loop_lem (k ∷ ks) budget r v known =
    let (q, found) = some_of (lookup k r.sched.by_id) (known k (ground (arith, str_eq_iff k k))) in
    chunk_round k ks budget q r v found (λ left t w step. chunk_loop_lem ks left t w (step known))
