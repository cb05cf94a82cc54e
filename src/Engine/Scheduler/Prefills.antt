-- ===== src/Engine/Scheduler/Prefills.antt =====
-- Proofs about `_schedule_prefills` of llm_serve/engine/scheduler.py.
use llm_serve.Prelude.{
  ℕ, ◌+◌, ◌-◌, ◌≤◌, ◌≡◌, refl, not, ◌||◌, inl, inr, some, List, [], ◌∷◌, length, Str, str_eq_iff,
  lookup, arith, some_of, Option-cases, Bool-cases, ltb, if◌then◌else◌, pure, ◌>>=◌, Runs,
  Runs-here, Runs-jump, Runs-bind, Runs-if, Runs-weaken,
}
use llm_serve.Engine.Scheduler.State.{SequenceGroup, Batch, is_in, deref, on_sched}
use llm_serve.Engine.Scheduler.Prefill.{admission, admit, admit_loop, chunk_loop, schedule_prefills}
use llm_serve.Engine.Scheduler.Invariant.{
  Inv, Moves, Moves-refl, Moves-same, Prefilling-trans, prefilled, prefills-Prefilling,
  running-Known, waiting-Known,
}
use llm_serve.Engine.Scheduler.Finishes.{with_shared}
use llm_serve.Engine.Scheduler.Chunks.{Fills, chunk_loop_lem}
use llm_serve.Engine.Scheduler.Searches.{find-Search, admission-Granted, Reshared-Moves}
use llm_serve.Engine.Scheduler.Admits.{Head, Shares, admit_lem}

module _ (digest : Str → Str) (preempted : List Str) where
  Fills-none :
      (budget : ℕ) (r t : Batch)
      → Moves 0 r t
      → t.out.decodes ≡ r.out.decodes
      → Fills budget r budget t
  Fills-none budget r t m e =
      (record { moves = Moves-same (omega arith) m; decodes = e }, omega arith)

  -- One round, over the rest of the loop.
  admit_round :
      (k : Str) (ks : List Str) (budget : ℕ) (q : SequenceGroup) (r : Batch)
      → Inv r.sched
      → r.sched.waiting ≡ k ∷ ks
      → lookup k r.sched.by_id ≡ some q
      → ((left : ℕ) (t : Batch)
          → Inv t.sched
          → t.sched.waiting ≡ ks
          → Runs (admit_loop digest preempted ks left) t (λ b u. Fills left t b u))
      → Runs (admit_loop digest preempted (k ∷ ks) budget) r (λ left t. Fills budget r left t)
  unfolding admit_loop deref
  admit_round k ks budget q r v queue found rest =
      let room = ltb (length r.sched.running) r.sched.max_num_seqs in
      let stops = not room || ltb budget 1 || is_in k preempted in
      elim (Bool-cases stops) [
        | inl stop ↦ Runs-here budget r (rw stop) (Fills-none budget r r (Moves-refl r v) refl)
        | inr go ↦
            let f = find-Search digest q.prompt_token_ids r.sched.shared v.pinned in
            let t = with_shared r f.after in
            let moved = Reshared-Moves r f.after v f.reshared in
            elim (Option-cases (admission t.sched q f.found budget)) [
              | inl e ↦
                  Runs-jump {n = pure budget} {t = t} (rw (go, found, f.run, e))
                    (Runs-here budget t refl (Fills-none budget r t moved refl))
              | inr (chunk, e) ↦
                  let granted = admission-Granted t.sched q f.found budget chunk e in
                  let head : Head k ks q t = record {
                    valid = moved.valid;
                    queue = queue;
                    found = found;
                    seat = ground (arith, go);
                  } in
                  let shares : Shares q f.found t = record {
                    cached = rw f.blocks f.cached;
                    owned = f.owned;
                    short = f.short;
                  } in
                  Runs-jump
                    {n = (on_sched (λ s. record s { waiting = ks }) >>= λ _.
                        admit digest k q f.found chunk)
                      >>= λ runs.
                          if runs
                          then admit_loop digest preempted ks (budget - chunk)
                          else pure budget}
                    {t = t} (rw (go, found, f.run, e))
                    (Runs-bind (admit_lem k ks q t head f.found shares chunk granted digest)
                      (λ runs u p.
                        Runs-if runs
                          (λ _. Runs-weaken (rest (budget - chunk) u p.1.valid p.2) (λ left w m. (
                            Prefilling-trans (omega (arith, granted.affordable, m.1))
                                (record { moves = moved; decodes = refl })
                                (Prefilling-trans refl
                                  (record { moves = p.1; decodes = p.3.same_decodes }) m.0),
                            omega (arith, m.1),
                          )))
                          (λ no. absurd (cc (no, p.0)))))
            ]
      ]

  admit_loop_lem :
      (ks : List Str) (budget : ℕ) (r : Batch)
      → Inv r.sched
      → r.sched.waiting ≡ ks
      → Runs (admit_loop digest preempted ks budget) r (λ left t. Fills budget r left t)
  unfolding admit_loop
  admit_loop_lem [] budget r v queue =
      Runs-here budget r refl (Fills-none budget r r (Moves-refl r v) refl)
  admit_loop_lem (k ∷ ks) budget r v queue =
      let (q, found) =
        some_of (lookup k r.sched.by_id)
          (waiting-Known v k (ground (arith, queue, str_eq_iff k k))) in
      admit_round k ks budget q r v queue found (admit_loop_lem ks)

-- From a scheduler that meets the invariant `_schedule_prefills` raises nothing, keeps the
-- invariant, drops no cached block, takes from the budget exactly the number of tokens of the
-- prefills that it adds to the batch, and leaves the decodes of the batch as they are.
pub schedule_prefills_lem :
    (digest : Str → Str) (budget : ℕ) (r : Batch)
    → Inv r.sched
    → Runs (schedule_prefills digest budget) r (λ left t.
      Moves (budget - left) r t
      × (left ≤ budget)
      × (prefilled t.out.prefills ≡ prefilled r.out.prefills + (budget - left))
      × (t.out.decodes ≡ r.out.decodes))
unfolding schedule_prefills
schedule_prefills_lem digest budget r v =
    Runs-jump
      {n = chunk_loop r.sched.running budget >>= λ left t.
        admit_loop digest t.out.preempted t.sched.waiting left t}
      {t = r} refl
      (Runs-bind (chunk_loop_lem r.sched.running budget r v (running-Known v)) (λ left t p.
        Runs-jump {n = admit_loop digest t.out.preempted t.sched.waiting left} {t = t} refl (
          Runs-weaken
            (admit_loop_lem digest t.out.preempted t.sched.waiting left t p.0.moves.valid refl)
            (λ rest u m.
              let all = Prefilling-trans (omega (arith, p.1, m.1)) p.0 m.0 in
              (all.moves, omega (arith, p.1, m.1), prefills-Prefilling all, all.decodes)))))
