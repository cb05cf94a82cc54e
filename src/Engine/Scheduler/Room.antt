-- ===== src/Engine/Scheduler/Room.antt =====
-- Proofs about the `while` loop of `_schedule_decodes` in llm_serve/engine/scheduler.py.
use llm_serve.Prelude.{
  ℕ, zero, suc, ◌≤◌, ◌≡◌, refl, ap, ◌∙◌, true, false, ◌⊎◌, inl, inr, some, length, Str, str_eq,
  lookup, lookup-insert, Bool-cases, Runs, Runs-here, Runs-jump, pure, ◌>>=◌, Runs-bind, Runs-if,
  Runs-weaken, Exec, if◌then◌else◌, arith,
}
use llm_serve.Engine.Blocks
use llm_serve.Engine.Scheduler.State.{SequenceGroup, Scheduler, Batch, is_running}
use llm_serve.Engine.Scheduler.Queues.{occ-le-length, length-erase}
use llm_serve.Engine.Scheduler.Lifecycle.{preempt}
use llm_serve.Engine.Scheduler.Decode.{make_room, choose_victim}
use llm_serve.Engine.Scheduler.Invariant.{
  Inv, Moves, SameTokens, SameTokens-trans, Moves-refl, Moves-trans,
}
use llm_serve.Engine.Scheduler.Preempts.{
  Running, running-occ, running-named, Preempted, preempt_lem, requeued,
}
use llm_serve.Engine.Scheduler.Victims.{IsRunning, choose_victim-IsRunning}

-- The sequence was preempted.
pub record Stopped (s : Scheduler) (k : Str) : Type 0 where
  pub seq : SequenceGroup
  pub found : lookup k s.by_id ≡ some seq
  pub status : is_running seq.status ≡ false

pub record HasRoom (k : Str) (q : SequenceGroup) (r t : Batch) : Type 0 where
  pub moves : Moves 0 r t
  pub same : SameTokens r t
  pub outcome :
      (Running t.sched k q × (Blocks.can_append t.sched.shared.blocks k 1 ≡ true))
      ⊎ Stopped t.sched k

requeued-stops : (mode : _) (q : SequenceGroup) → is_running (requeued mode q).status ≡ false
requeued-stops mode q = ground arith

-- The sequence under its own id.
Running-own : {s : Scheduler} {k : Str} {q : SequenceGroup} → Inv s → Running s k q → IsRunning s q
Running-own {s} {k} {q} v a =
    let name : q.seq_id ≡ k = (running-named v a).0 in
    record { found = ap (λ j. lookup j s.by_id) name ∙ a.found; status = a.status }

module _ (r t : Batch) where
  stopped :
      (k : Str) (c : SequenceGroup)
      → Preempted c.seq_id c r t
      → str_eq c.seq_id k ≡ true
      → Stopped t.sched k
  stopped k c p same = record {
    seq = requeued r.sched.preemption_mode c;
    found = rw p.by_id (lookup-insert c.seq_id k _ r.sched.by_id ∙ rw same);
    status = requeued-stops r.sched.preemption_mode c;
  }

  still-Running :
      (k : Str) (q c : SequenceGroup)
      → Preempted c.seq_id c r t
      → Running r.sched k q
      → str_eq c.seq_id k ≡ false
      → Running t.sched k q
  still-Running k q c p a other = record {
    found = rw p.by_id (lookup-insert c.seq_id k _ r.sched.by_id ∙ rw other a.found);
    status = a.status;
  }

  shorter :
      (c : SequenceGroup) {n : ℕ}
      → Preempted c.seq_id c r t
      → Inv r.sched
      → IsRunning r.sched c
      → length r.sched.running ≤ suc n
      → length t.sched.running ≤ n
  shorter c p v a h =
      rw p.running (omega (arith, length-erase c.seq_id r.sched.running, running-occ v a))

-- For a running sequence of a scheduler that meets the invariant, the preemption loop of
-- `_schedule_decodes` ends after at most as many rounds as there are running sequences: then the
-- sequence still runs and may append a token, or it was preempted itself. The invariant holds
-- after it.
pub make_room_lem :
    (fuel : ℕ) (k : Str) (q : SequenceGroup) (r : Batch)
    → Inv r.sched
    → Running r.sched k q
    → length r.sched.running ≤ fuel
    → Runs (make_room fuel k q) r (λ _ t. HasRoom k q r t)
unfolding make_room
make_room_lem zero k q r v a h =
    absurd (omega (arith, occ-le-length k r.sched.running, running-occ v a))
make_room_lem (suc fuel) k q r v a h =
    elim (Bool-cases (Blocks.can_append r.sched.shared.blocks k 1)) [
      | inl e ↦ Runs-here tt r (rw e) (record {
        moves = Moves-refl r v;
        same = record { decodes = refl; prefills = refl };
        outcome = inl (a, e);
      })
      | inr e ↦
          let victim = choose_victim k q r.sched in
          let turn : Exec Batch (Unit {0}) = preempt victim.seq_id >>= λ _.
          (if str_eq victim.seq_id k then pure tt else make_room fuel k q) in
          let chosen : IsRunning r.sched victim = choose_victim-IsRunning v k q (Running-own v a) in
          Runs-jump {n = turn} (rw e) (
            Runs-bind (preempt_lem victim.seq_id victim r v chosen) λ _ t p.
              Runs-if (str_eq victim.seq_id k)
                (λ same. Runs-here tt t refl (record {
                  moves = p.moves;
                  same = p.same;
                  outcome = inr (stopped r t k victim p same);
                }))
                (λ other.
                  Runs-weaken
                    (make_room_lem fuel k q t p.moves.valid (still-Running r t k q victim p a other)
                      (shorter r t victim p v chosen h))
                    (λ _ u done. record {
                      moves = Moves-trans refl p.moves done.moves;
                      same = SameTokens-trans p.same done.same;
                      outcome = done.outcome;
                    })))
    ]
