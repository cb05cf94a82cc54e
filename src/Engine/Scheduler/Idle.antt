-- ===== src/Engine/Scheduler/Idle.antt =====
-- Proofs about `run_until_idle` of llm_serve/engine/scheduler.py.
use llm_serve.Prelude.{
  continue, pure, ℕ, zero, suc, ◌+◌, ◌<◌, ◌≤◌, ◌≡◌, refl, ◌⊎◌, true, false, not, ◌&&◌, ◌==◌, inl,
  inr, some, List, [], ◌∷◌, length, Str, str_eq_iff, lookup, some_of, Bool-cases, ok, err,
  runtime_error, Result, arith,
}
use llm_serve.Engine.Blocks.{blocks_for_tokens}
use llm_serve.Engine.Prefix.{is_empty}
use llm_serve.Engine.Scheduler.State.{
  Scheduler, SequenceGroup, SchedulerOutput, batch_size, prompt_len,
}
use llm_serve.Engine.Scheduler.Step.{
  step, run_until_idle, has_work, num_unfinished, waiting_can_progress, head_can_progress,
}
use llm_serve.Engine.Scheduler.Invariant.{Inv, waiting-Known}
use llm_serve.Engine.Scheduler.Steps.{step_lem}

-- The pool is too small for the prompt of the first waiting sequence and the watermark.
pub record TooLong (s : Scheduler) (k : Str) : Type 0 where
  pub seq : SequenceGroup
  pub found : lookup k s.by_id ≡ some seq
  pub over :
      s.shared.blocks.num_blocks
      < blocks_for_tokens s.shared.blocks (prompt_len seq) + s.shared.blocks.watermark_blocks

-- Nothing can be scheduled in a later step: no sequence waits, runs or is swapped out, or the first
-- waiting one never fits.
abbrev pub IsStuck : Scheduler → List Str → Type 0
IsStuck s [] = (length s.running ≡ 0) × (length s.swapped ≡ 0)
IsStuck s (k ∷ rest) = TooLong s k

abbrev pub IsDeadlock : SchedulerOutput → Scheduler → Type 0
IsDeadlock out t = (batch_size out ≡ 0) × IsStuck t t.waiting

-- Steps one after another, each on a scheduler with work, within its budget and not at a deadlock.
pub data Steps (digest : Str → Str) : Scheduler → List SchedulerOutput → Scheduler → Type 0 where
  stay : (s : Scheduler) → Steps digest s [] s
  goes :
      (s t u : Scheduler) (out : SchedulerOutput) (outs : List SchedulerOutput)
      → 0 < num_unfinished s
      → step digest s ≡ (ok out, t)
      → out.batched_tokens ≤ s.max_num_batched_tokens
      → ¬ IsDeadlock out t
      → Steps digest t outs u
      → Steps digest s (out ∷ outs) u

-- A step that ends in a deadlock.
pub record Deadlocks (digest : Str → Str) (s t : Scheduler) : Type 0 where
  pub out : SchedulerOutput
  pub works : 0 < num_unfinished s
  pub run : step digest s ≡ (ok out, t)
  pub stuck : IsDeadlock out t

-- It returns the batches of steps until no work is left or the bound is met, or some steps lead to
-- a deadlock, and then it raises.
abbrev pub Outcome :
    (Str → Str) → ℕ → Scheduler → Result (List SchedulerOutput) → Scheduler → Type 0
Outcome digest max_steps s (ok outs) t =
    Steps digest s outs t
    × (length outs ≤ max_steps)
    × ((num_unfinished t ≡ 0) ⊎ (length outs ≡ max_steps))
Outcome digest max_steps s (err e) t =
    (e ≡ runtime_error)
    × ((outs : List SchedulerOutput) × (u : Scheduler) × Steps digest s outs u
        × (length outs < max_steps)
        × Deadlocks digest u t)

-- What a run does from the scheduler `s`.
pub record Ran (digest : Str → Str) (max_steps : ℕ) (s : Scheduler) : Type 0 where
  pub result : Result (List SchedulerOutput)
  pub after : Scheduler
  pub run : run_until_idle digest max_steps s ≡ (result, after)
  pub valid : Inv after
  pub outcome : Outcome digest max_steps s result after

has_work-unfinished : (s : Scheduler) → has_work s ≡ true → 0 < num_unfinished s
unfolding has_work
has_work-unfinished s h = ground arith

idle-unfinished : (s : Scheduler) → has_work s ≡ false → num_unfinished s ≡ 0
unfolding has_work
idle-unfinished s h = ground arith

none_of : (q : List Str) → is_empty q ≡ true → length q ≡ 0
none_of [] h = refl
none_of (k ∷ q) h = cc

empty_of : (q : List Str) → length q ≡ 0 → is_empty q ≡ true
empty_of [] h = refl
empty_of (k ∷ q) h = absurd (omega (arith, h))

-- The test of the source is the description above.
IsStuck-of :
    (s : Scheduler) (q : List Str)
    → Inv s
    → s.waiting ≡ q
    → head_can_progress s q ≡ false
    → IsStuck s q
IsStuck-of s [] v e h =
    (none_of s.running (ground (arith, h)), none_of s.swapped (ground (arith, h)))
IsStuck-of s (k ∷ ks) v e h =
    let (seq, found) =
      some_of (lookup k s.by_id) (waiting-Known v k (ground (arith, e, str_eq_iff k k))) in
    record { seq = seq; found = found; over = ground (arith, h, found) }

progress_of : (s : Scheduler) (q : List Str) → head_can_progress s q ≡ true → ¬ IsStuck s q
progress_of s [] h stuck =
    absurd (ground (arith, h, empty_of s.running stuck.0, empty_of s.swapped stuck.1))
progress_of s (k ∷ ks) h stuck = absurd (ground (arith, h, stuck.found, stuck.over))

IsDeadlock-of :
    (out : SchedulerOutput) (t : Scheduler)
    → Inv t
    → (batch_size out == 0 && not (waiting_can_progress t)) ≡ true
    → IsDeadlock out t
unfolding waiting_can_progress
IsDeadlock-of out t v h = (ground (arith, h), IsStuck-of t t.waiting v refl (ground (arith, h)))

no-IsDeadlock :
    (out : SchedulerOutput) (t : Scheduler)
    → (batch_size out == 0 && not (waiting_can_progress t)) ≡ false
    → ¬ IsDeadlock out t
unfolding waiting_can_progress
no-IsDeadlock out t h (empty, stuck) = progress_of t t.waiting (ground (arith, h, empty)) stuck

module _ (digest : Str → Str) where
  -- One step more in front of a run.
  abbrev with_first :
      SchedulerOutput → Result (List SchedulerOutput) → Result (List SchedulerOutput)
  with_first out (ok outs) = ok (out ∷ outs)
  with_first out (err e) = err e

  with_first-Outcome :
      (n : ℕ) (s t u : Scheduler) (out : SchedulerOutput) (r : Result (List SchedulerOutput))
      → ((outs : List SchedulerOutput) (w : Scheduler)
          → Steps digest t outs w
          → Steps digest s (out ∷ outs) w)
      → Outcome digest n t r u
      → Outcome digest (suc n) s (with_first out r) u
  with_first-Outcome n s t u out (ok outs) longer (steps, few, ends) = (
    longer outs u steps,
    omega (arith, few),
    elim ends [ inl idle ↦ inl idle | inr all ↦ inr (omega (arith, all)) ],
  )
  with_first-Outcome n s t u out (err e) longer (same, (outs, w, steps, few, dead)) =
      (same, (out ∷ outs, w, longer outs w steps, omega (arith, few), dead))

  continued :
      (out : SchedulerOutput) (r : Result (List SchedulerOutput)) (t : Scheduler)
      → continue r (λ outs. pure (out ∷ outs)) t ≡ (with_first out r, t)
  continued out (ok outs) t = refl
  continued out (err e) t = refl

  -- From a scheduler that meets the invariant `run_until_idle`, with any bound on the steps, makes
  -- steps, each on a scheduler that has a waiting, running or swapped-out sequence and each within
  -- the token budget, none of which but the last ends in a deadlock: an empty batch after which
  -- either no sequence is left in a queue or the pool is too small for the prompt of the first
  -- waiting one and the watermark. It raises a RuntimeError exactly where the last step ends so,
  -- and otherwise returns the batches of all steps, because no sequence is left or the bound is
  -- met. It raises nothing else, and the invariant holds after it either way.
  pub run_until_idle_lem : (max_steps : ℕ) (s : Scheduler) → Inv s → Ran digest max_steps s
  unfolding run_until_idle
  run_until_idle_lem zero s v = record {
    result = ok [];
    after = s;
    run = refl;
    valid = v;
    outcome = (stay s, omega arith, inr refl);
  }
  run_until_idle_lem (suc n) s v =
      let st = step_lem digest s v in
      let more = run_until_idle_lem n st.after st.valid in
      elim (Bool-cases (has_work s)) [
        | inr idle ↦ record {
          result = ok [];
          after = s;
          run = rw idle refl;
          valid = v;
          outcome = (stay s, omega arith, inl (idle-unfinished s idle));
        }
        | inl work ↦
            elim (Bool-cases (batch_size st.out == 0 && not (waiting_can_progress st.after))) [
              | inl stuck ↦ record {
                result = err runtime_error;
                after = st.after;
                run = rw (work, st.run, stuck) refl;
                valid = st.valid;
                outcome = (
                  refl,
                  (
                    [],
                    s,
                    stay s,
                    omega arith,
                    record {
                      out = st.out;
                      works = has_work-unfinished s work;
                      run = st.run;
                      stuck = IsDeadlock-of st.out st.after st.valid stuck;
                    },
                  ),
                );
              }
              | inr moves ↦ record {
                result = with_first st.out more.result;
                after = more.after;
                run = rw (work, st.run, moves, more.run) (continued st.out more.result more.after);
                valid = more.valid;
                outcome =
                    with_first-Outcome n s st.after more.after st.out more.result
                      (λ outs w steps.
                        goes s st.after w st.out outs (has_work-unfinished s work) st.run
                          (omega (arith, st.counted, st.bounded))
                          (no-IsDeadlock st.out st.after moves) steps)
                      more.outcome;
              }
            ]
      ]
