-- ===== src/Engine/Scheduler/Reach.antt =====
-- The life of a scheduler of llm_serve/engine/scheduler.py: the calls that its clients make, in any
-- order, and the states that they reach.
use llm_serve.Prelude.{ℕ, ◌≡◌, Option, List, Str, ok}
use llm_serve.Engine.Scheduler.State.{SequenceGroup, Scheduler}
use llm_serve.Engine.Scheduler.Lifecycle.{abort, finish}
use llm_serve.Engine.Scheduler.Step.{Settings, init, add_request, step}
use llm_serve.Engine.Scheduler.Invariant.{Inv}
use llm_serve.Engine.Scheduler.Preempts.{Running}
use llm_serve.Engine.Scheduler.Aborts.{abort-Inv, Settled}
use llm_serve.Engine.Scheduler.Early.{finish-Running, finish-Settled}
use llm_serve.Engine.Scheduler.Requests.{init-Inv, add_request-Inv}
use llm_serve.Engine.Scheduler.Steps.{step_lem}

module _ (digest : Str → Str) where
  -- A call takes the scheduler to another one, whether it returns or raises. `finish` is called on a
  -- sequence that runs, or that ended.
  pub data Call : Scheduler → Scheduler → Type 0 where
    requests :
        (prompt : List ℕ) (n : ℕ) (seq_id : Option Str) (time : Option ℕ) (s : Scheduler)
        → Call s (add_request prompt n seq_id time s).1
    steps : (s : Scheduler) → Call s (step digest s).1
    aborts : (k : Str) (s : Scheduler) → Call s (abort k s).1
    ends :
        (k : Str) (q : SequenceGroup) (s : Scheduler) → Running s k q → Call s (finish digest k s).1
    ends_again : (k : Str) (s : Scheduler) → Settled k s → Call s (finish digest k s).1

  pub data Reachable (c : Settings) (clock : ℕ → ℕ) : Scheduler → Type 0 where
    starts : (s : Scheduler) → init c clock ≡ ok s → Reachable c clock s
    goes_on : (s t : Scheduler) → Reachable c clock s → Call s t → Reachable c clock t

  -- Every call keeps the invariant.
  pub Call-Inv : {s t : Scheduler} → Call s t → Inv s → Inv t
  Call-Inv (requests prompt n seq_id time s) v = add_request-Inv prompt n seq_id time s v
  Call-Inv (steps s) v = let st = step_lem digest s v in rw st.run st.valid
  Call-Inv (aborts k s) v = abort-Inv k s v
  Call-Inv (ends k q s a) v = let (t, run, w, found) = finish-Running digest k s v q a in rw run w
  Call-Inv (ends_again k s h) v = rw (finish-Settled digest k s v h) v

  -- Every scheduler that calls reach from the constructor, in any order of `add_request`, `step`,
  -- `abort` and `finish` of a running or ended sequence, meets the invariant: each sequence stands
  -- once in the queue of its status and in no other, the block manager has a length for exactly
  -- the running sequences and it is their number of computed tokens, the prefix-cache entries are
  -- the only pins on a valid block pool, and at most `max_num_seqs` sequences run.
  pub Reachable-Inv : {c : Settings} {clock : ℕ → ℕ} {s : Scheduler} → Reachable c clock s → Inv s
  Reachable-Inv {c} {clock} (starts s e) = init-Inv c clock e
  Reachable-Inv (goes_on s t r h) = Call-Inv h (Reachable-Inv r)
