-- ===== src/Engine/Scheduler/Resumes.antt =====
-- Proofs about `_schedule_swapped` of llm_serve/engine/scheduler.py.
use llm_serve.Prelude.{
  Bool-cases, inl, inr, ◌<◌, ◌≡◌, refl, max, true, not, some, List, [], ◌∷◌, length, Str,
  str_eq_iff, lookup, lookup-insert, ltb, ok, arith, some_of, pure, ◌>>◌, Runs, Runs-here,
  Runs-jump, Runs-if, Runs-weaken, if◌then◌else◌,
}
use llm_serve.Engine.Blocks
use llm_serve.Engine.Blocks.Alloc.{after_allocate, allocation, allocate_ok}
use llm_serve.Engine.Prefix.Find.{pins}
use llm_serve.Engine.Scheduler.State.{
  SeqStatus, SequenceGroup, Batch, num_computed_tokens, on_sched, deref,
}
use llm_serve.Engine.Scheduler.Decode.{resume, resume_loop, schedule_swapped}
use llm_serve.Engine.Scheduler.Invariant.{Inv, Moves, Moves-refl, Moves-trans, swapped-Known}
use llm_serve.Engine.Scheduler.Preempts.{known-insert}
use llm_serve.Engine.Scheduler.Joins.{Idle, joined, joined-Inv, CanAllocate-part}

-- The sequence runs again.
abbrev resumed : SequenceGroup → SequenceGroup
resumed q = record q { status = SeqStatus.running }

module _ (k : Str) (rest : List Str) (q : SequenceGroup) (r : Batch) (v : Inv r.sched)
    (queue : r.sched.swapped ≡ k ∷ rest) (found : lookup k r.sched.by_id ≡ some q) where
  swapped-status : q.status ≡ SeqStatus.swapped
  swapped-status = ground (arith, v.swaps k, queue, found, str_eq_iff k k)

  swapped-begun : 0 < num_computed_tokens q
  swapped-begun = ground (arith, v.names k, swapped-status, found)

  resumed-Moves :
      ltb (length r.sched.running) r.sched.max_num_seqs ≡ true
      → Blocks.can_allocate r.sched.shared.blocks (num_computed_tokens q) 0 ≡ true
      → (Blocks.allocate k (max 1 (num_computed_tokens q)) [] r.sched.shared.blocks ≡ (
        ok (allocation r.sched.shared.blocks k (num_computed_tokens q) []),
        after_allocate r.sched.shared.blocks k (num_computed_tokens q) [],
      ))
        × Moves 0 r (record r {
          sched = joined r.sched k (resumed q) (num_computed_tokens q) [] r.sched.waiting rest;
        })
  resumed-Moves room fits =
      let s = r.sched in
      let n = num_computed_tokens q in
      let p = resumed q in
      let status = swapped-status in
      let begun = swapped-begun in
      let a : Idle s k q = record { found = found; idle = rw status refl } in
      let c = CanAllocate-part v a n n [] fits (omega arith) (omega arith) in
      let most : max 1 n ≡ n = grind arith in
      (
        rw most (
            allocate_ok s.shared.blocks (pins s.shared) k n [] v.pinned.manager
              (λ b h. absurd (omega arith)) c),
        record {
          valid =
              joined-Inv v a p n [] s.waiting rest
                (record {
                  seq_id = refl;
                  status = refl;
                  prompt = refl;
                  computed = refl;
                  begun = begun;
                })
                (λ b h. absurd (omega arith)) c (ground arith)
                (λ j.
                  ground
                    (arith, v.waits j, found, status, lookup-insert k j p s.by_id, str_eq_iff k j))
                (λ j. ground (
                  arith,
                  v.swaps j,
                  queue,
                  found,
                  status,
                  lookup-insert k j p s.by_id,
                  str_eq_iff k j,
                ));
          known = λ j h. known-insert k j p s.by_id h;
          limit = refl;
          keeps = λ h b e. e;
          tokens = omega arith;
        },
      )

-- One round, over the rest of the loop.
resume_round :
    (k : Str) (ks : List Str) (q : SequenceGroup) (r : Batch)
    → Inv r.sched
    → r.sched.swapped ≡ k ∷ ks
    → lookup k r.sched.by_id ≡ some q
    → ((t : Batch)
        → Inv t.sched
        → t.sched.swapped ≡ ks
        → Runs (resume_loop ks) t (λ _ u. Moves 0 t u))
    → Runs (resume_loop (k ∷ ks)) r (λ _ t. Moves 0 r t)
unfolding resume_loop deref
resume_round k ks q r v queue found rest =
    let stop : Moves 0 r r = Moves-refl r v in
    let fits = Blocks.can_allocate r.sched.shared.blocks (num_computed_tokens q) 0 in
    elim (Bool-cases (ltb (length r.sched.running) r.sched.max_num_seqs)) [
      | inr full ↦ Runs-here tt r (rw full) stop
      | inl room ↦
          Runs-jump
            {n = if not fits
              then pure tt
              else (do on_sched (λ s. record s { swapped = ks }); resume k q; resume_loop ks)}
            {t = r} (rw (room, found))
            (Runs-if (not fits) (λ _. Runs-here tt r refl stop)
              (λ enough.
                let (run, moves) = resumed-Moves k ks q r v queue found room (ground arith) in
                Runs-jump {n = resume_loop ks}
                  {t = record r {
                    sched =
                        joined r.sched k (resumed q) (num_computed_tokens q) [] r.sched.waiting ks;
                  }}
                  (rw run)
                  (Runs-weaken (rest _ moves.valid refl) (λ _ t m. Moves-trans refl moves m))))
    ]

resume_loop_lem :
    (ks : List Str) (r : Batch)
    → Inv r.sched
    → r.sched.swapped ≡ ks
    → Runs (resume_loop ks) r (λ _ t. Moves 0 r t)
unfolding resume_loop
resume_loop_lem [] r v queue = Runs-here tt r refl (Moves-refl r v)
resume_loop_lem (k ∷ ks) r v queue =
    let (q, found) =
      some_of (lookup k r.sched.by_id)
        (swapped-Known v k (ground (arith, queue, str_eq_iff k k))) in
    resume_round k ks q r v queue found (resume_loop_lem ks)

-- From a scheduler that meets the invariant `_schedule_swapped` raises nothing, keeps the
-- invariant, drops no cached block, and leaves the number of tokens of the batch as it is.
pub schedule_swapped_lem : (r : Batch) → Inv r.sched → Runs schedule_swapped r (λ _ t. Moves 0 r t)
unfolding schedule_swapped
schedule_swapped_lem r v =
    Runs-jump {n = resume_loop r.sched.swapped} {t = r} refl
      (resume_loop_lem r.sched.swapped r v refl)
