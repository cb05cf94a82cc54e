-- ===== src/Engine/Scheduler/Decodes.antt =====
-- Proofs about `_schedule_decodes` of llm_serve/engine/scheduler.py.
use llm_serve.Prelude.{
  ℕ, ◌+◌, ◌-◌, ◌≤◌, ◌≡◌, refl, ap, Bool, true, false, not, ◌||◌, inl, inr, List, [], ◌∷◌, ◌++◌,
  length, length-append, Str, str_eq_iff, lookup, arith, Exec, pure, ◌>>=◌, ◌>>◌, Runs, Runs-here,
  Runs-jump, Runs-bind, Runs-if, Runs-weaken, some_of, leb, ltb, if◌then◌else◌,
}
use llm_serve.Engine.Blocks
use llm_serve.Engine.Scheduler.State.{
  SeqStatus, SequenceGroup, Batch, is_running, is_in, is_finished, prefill_done, deref,
}
use llm_serve.Engine.Scheduler.Lifecycle.{finish_seq}
use llm_serve.Engine.Scheduler.Decode.{
  decode_token, decode_seq, decode_loop, schedule_decodes, make_room,
}
use llm_serve.Engine.Scheduler.Invariant.{
  Inv, Moves, Known, running-Known, Moves-refl, Moves-same, Moves-trans, Decoding, Decoding-trans,
  decodes-Decoding,
}
use llm_serve.Engine.Scheduler.Preempts.{Running, known-insert}
use llm_serve.Engine.Scheduler.Room.{HasRoom, make_room_lem}
use llm_serve.Engine.Scheduler.Finishes.{finish_seq_lem}
use llm_serve.Engine.Scheduler.Grows.{
  Longer, Grown, regrown, grow_running, regrown-Inv, regrown-Running,
}

-- The sequence after one more generated token.
abbrev pub decoded : SequenceGroup → SequenceGroup
decoded q = record q { num_generated = q.num_generated + 1 }

decoded-Longer : (q : SequenceGroup) → Longer q 1 (decoded q)
decoded-Longer q = record { seq_id = refl; status = refl; prompt = refl; computed = omega arith }

-- The batch after the decode, before the test of `max_tokens`.
abbrev after_decode : (r : Batch) (k : Str) (q : SequenceGroup) → Grown r.sched k q 1 → Batch
after_decode r k q g = record {
  sched = record (regrown r.sched g.manager k (decoded q)) {
    total_generation_tokens = r.sched.total_generation_tokens + 1;
  };
  out = record (r.out) { decodes = r.out.decodes ++ k ∷ [] };
}

-- A sequence that a loop over `running` does not pass by.
pub may_run-running :
    (status : SeqStatus) (here : Bool)
    → (not (is_running status) || not here) ≡ false
    → status ≡ SeqStatus.running
may_run-running status here h = ground arith

module _ (digest : Str → Str) where
  module _ (k : Str) (q : SequenceGroup) (r : Batch) (v : Inv r.sched)
      (a : Running r.sched k q) where
    after_decode-Moves : (g : Grown r.sched k q 1) → Moves 1 r (after_decode r k q g)
    after_decode-Moves g =
        let v' = regrown-Inv v a 1 (decoded q) g (decoded-Longer q) in
        record {
          valid = record {
            pinned = v'.pinned;
            unlimited = v'.unlimited;
            waits = v'.waits;
            runs = v'.runs;
            swaps = v'.swaps;
            tokens = v'.tokens;
            names = v'.names;
            capped = v'.capped;
          };
          known = λ j h. known-insert k j _ r.sched.by_id h;
          limit = refl;
          keeps = λ h b e. e;
          tokens = omega (arith, length-append r.out.decodes (k ∷ []));
        }

    decode_token_lem :
        Blocks.can_append r.sched.shared.blocks k 1 ≡ true
        → Runs (decode_token digest k) r (λ _ t. Decoding 1 r t)
    unfolding decode_token
    decode_token_lem fits =
        let g = grow_running v a 1 fits in
        let u = after_decode r k q g in
        let moved = after_decode-Moves g in
        let b = regrown-Running v a 1 (decoded q) g (decoded-Longer q) in
        Runs-jump
          {n = if leb q.max_tokens (q.num_generated + 1) then finish_seq digest k else pure tt}
          {t = u} (rw (g.run, a.found))
          (Runs-if (leb q.max_tokens (q.num_generated + 1))
            (λ _.
              Runs-weaken
                (finish_seq_lem digest k (decoded q) u moved.valid
                  (record { found = b.found; status = b.status }))
                (λ _ t f. record {
                  moves = Moves-trans refl moved f.moves;
                  prefills = f.same.prefills;
                }))
            (λ _. Runs-here tt u refl (record { moves = moved; prefills = refl })))

  -- The second half of a decode, once room was made.
  abbrev go_on : Str → Exec Batch ℕ
  go_on k = do
    q ← deref k
    if is_running q.status then (do decode_token digest k; pure 1) else pure 0

  go_on_lem :
      (k : Str) (q : SequenceGroup) (r t : Batch)
      → HasRoom k q r t
      → Runs (go_on k) t (λ used u. Decoding used r u × (used ≤ 1))
  unfolding deref
  go_on_lem k q r t room =
      let made : Decoding 0 r t = record { moves = room.moves; prefills = room.same.prefills } in
      elim room.outcome [
        | inl (b, fits) ↦
            Runs-jump {n = decode_token digest k >>= λ _. pure 1} {t = t}
              (rw (b.found, ap is_running b.status))
              (Runs-bind (decode_token_lem k q t room.moves.valid b fits)
                (λ _ u m. Runs-here 1 u refl (Decoding-trans refl made m, omega arith)))
        | inr stop ↦ Runs-here 0 t (rw (stop.found, stop.status)) (made, omega arith)
      ]

  -- A sequence decodes one token or is preempted.
  decode_seq_lem :
      (k : Str) (q : SequenceGroup) (r : Batch)
      → Inv r.sched
      → Running r.sched k q
      → Runs (decode_seq digest k q) r (λ used t. Decoding used r t × (used ≤ 1))
  unfolding decode_seq
  decode_seq_lem k q r v a =
      Runs-jump {n = make_room (length r.sched.running) k q >>= λ _. go_on k} {t = r} refl (
        Runs-bind (make_room_lem (length r.sched.running) k q r v a (omega arith))
          (λ _ t room. go_on_lem k q r t room))

  Decoding-none : (budget : ℕ) (r : Batch) → Inv r.sched → Decoding (budget - budget) r r
  Decoding-none budget r v = record {
    moves = Moves-same (omega arith) (Moves-refl r v);
    prefills = refl;
  }

  decode_loop_lem :
      (ks : List Str) (budget : ℕ) (r : Batch)
      → Inv r.sched
      → Known ks r.sched
      → Runs
          (decode_loop digest ks budget)
          r
          (λ left t. Decoding (budget - left) r t × (left ≤ budget))
  unfolding decode_loop
  decode_loop_lem [] budget r v known =
      Runs-here budget r refl (Decoding-none budget r v, omega arith)
  decode_loop_lem (k ∷ ks) budget r v known =
      let (q, found) =
        some_of (lookup k r.sched.by_id) (known k (ground (arith, str_eq_iff k k))) in
      let here = is_in k r.sched.running in
      let skip = decode_loop_lem ks budget r v (λ j h. known j (omega arith)) in
      Runs-jump
        {n = if not (is_running q.status) || not here
          then decode_loop digest ks budget
          else if is_finished q || not (prefill_done q)
          then decode_loop digest ks budget
          else if ltb budget 1
          then pure budget
          else (decode_seq digest k q >>= λ used. decode_loop digest ks (budget - used))}
        {t = r} (rw found)
        (Runs-if (not (is_running q.status) || not here) (λ _. skip)
          (λ runs.
            Runs-if (is_finished q || not (prefill_done q)) (λ _. skip)
              (λ _.
                Runs-if (ltb budget 1)
                  (λ _. Runs-here budget r refl (Decoding-none budget r v, omega arith))
                  (λ some_left.
                    let a : Running r.sched k q = record {
                      found = found;
                      status = may_run-running q.status here runs;
                    } in
                    Runs-bind (decode_seq_lem k q r v a) (λ used t p.
                      Runs-weaken
                        (decode_loop_lem ks (budget - used) t p.0.moves.valid
                          (λ j h. p.0.moves.known j (known j (omega arith))))
                        (λ left u m.
                          (Decoding-trans (ground arith) p.0 m.0, omega (arith, m.1))))))))

  -- From a scheduler that meets the invariant `_schedule_decodes` raises nothing, keeps the
  -- invariant, drops no cached block, takes from the budget exactly the number of decodes that it
  -- adds to the batch, and leaves the prefills of the batch as they are.
  pub schedule_decodes_lem :
      (budget : ℕ) (r : Batch)
      → Inv r.sched
      → Runs (schedule_decodes digest budget) r (λ left t.
        Moves (budget - left) r t
        × (left ≤ budget)
        × (length t.out.decodes ≡ length r.out.decodes + (budget - left))
        × (t.out.prefills ≡ r.out.prefills))
  unfolding schedule_decodes
  schedule_decodes_lem budget r v =
      Runs-jump {n = decode_loop digest r.sched.running budget} {t = r} refl (
        Runs-weaken (decode_loop_lem r.sched.running budget r v (running-Known v))
          (λ left t p. (p.0.moves, p.1, decodes-Decoding p.0, p.0.prefills)))
