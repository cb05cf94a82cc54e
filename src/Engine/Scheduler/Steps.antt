-- ===== src/Engine/Scheduler/Steps.antt =====
-- Proofs about one engine step of llm_serve/engine/scheduler.py.
use llm_serve.Prelude.{
  ℕ, ◌+◌, ◌-◌, ◌≤◌, ◌≡◌, refl, true, [], ◌∷◌, ◌++◌, Str, lookup, is_some, ok, arith, Runs,
  Runs-bind, Runs-weaken,
}
use llm_serve.Engine.Prefix.Publish.{Keeps}
use llm_serve.Engine.Scheduler.State.{Scheduler, Batch, SchedulerOutput, new_output, batch_size}
use llm_serve.Engine.Scheduler.Step.{run_phases, step}
use llm_serve.Engine.Scheduler.Invariant.{Inv, Moves-trans, spent}
use llm_serve.Engine.Scheduler.Chunks.{Spends}
use llm_serve.Engine.Scheduler.Decodes.{schedule_decodes_lem}
use llm_serve.Engine.Scheduler.Resumes.{schedule_swapped_lem}
use llm_serve.Engine.Scheduler.Prefills.{schedule_prefills_lem}

run_phases_lem :
    (digest : Str → Str) (budget : ℕ) (r : Batch)
    → Inv r.sched
    → Runs (run_phases digest budget) r (λ left t. Spends budget r left t)
unfolding run_phases
run_phases_lem digest budget r v = Runs-bind (schedule_decodes_lem digest budget r v) (λ left t p.
    Runs-bind (schedule_swapped_lem t p.0.valid) (λ _ u m.
      Runs-weaken (schedule_prefills_lem digest left u m.valid) (λ rest w n. (
        Moves-trans (omega (arith, p.1, n.1)) p.0 (Moves-trans refl m n.0),
        omega (arith, p.1, n.1),
      ))))

-- What a step does from the scheduler `s`.
pub record Stepped (digest : Str → Str) (s : Scheduler) : Type 0 where
  pub out : SchedulerOutput
  pub after : Scheduler
  pub run : step digest s ≡ (ok out, after)
  pub valid : Inv after
  pub counted : out.batched_tokens ≡ spent out
  pub bounded : spent out ≤ s.max_num_batched_tokens
  pub limit : after.max_num_batched_tokens ≡ s.max_num_batched_tokens
  pub known : (k : Str) → is_some (lookup k s.by_id) ≡ true → is_some (lookup k after.by_id) ≡ true
  pub keeps : Keeps s.shared.cache.entries after.shared.cache.entries

-- From a scheduler that meets the invariant a step raises nothing and returns a batch;
-- `batched_tokens` is the number of tokens of the batch and is at most `max_num_batched_tokens`,
-- the invariant holds after it, no sequence is forgotten, and every cached prefix block is still
-- cached.
pub step_lem : (digest : Str → Str) (s : Scheduler) → Inv s → Stepped digest s
unfolding step
step_lem digest s v =
    let started = record s { step_count = s.step_count + 1 } in
    let r : Batch = record { sched = started; out = new_output started.step_count } in
    let v' : Inv started = record {
      pinned = v.pinned;
      unlimited = v.unlimited;
      waits = v.waits;
      runs = v.runs;
      swaps = v.swaps;
      tokens = v.tokens;
      names = v.names;
      capped = v.capped;
    } in
    let phases = run_phases_lem digest s.max_num_batched_tokens r v' in
    let left = phases.value in
    let t = phases.final in
    let m = phases.post.0 in
    let w = m.valid in
    let out = record (t.out) { batched_tokens = t.sched.max_num_batched_tokens - left } in
    record {
      out = out;
      after = record (t.sched) { batch_sizes = t.sched.batch_sizes ++ batch_size out ∷ [] };
      run = rw phases.run refl;
      valid = record {
        pinned = w.pinned;
        unlimited = w.unlimited;
        waits = w.waits;
        runs = w.runs;
        swaps = w.swaps;
        tokens = w.tokens;
        names = w.names;
        capped = w.capped;
      };
      counted = omega (arith, m.tokens, m.limit, phases.post.1);
      bounded = omega (arith, m.tokens, phases.post.1);
      limit = m.limit;
      known = m.known;
      keeps = m.keeps;
    }
