-- ===== src/Tests/SchedulerRuns.antt =====
-- The theorems on llm_serve/engine/scheduler.py at concrete schedulers.
use llm_serve.Prelude.{
  ◌+◌, ◌-◌, ◌≤◌, ◌≡◌, refl, some, [], ◌∷◌, length, lookup, ok, arith, Runs, ◌>>=◌,
}
use llm_serve.Engine.Scheduler.State.{Scheduler, on_sched}
use llm_serve.Engine.Scheduler.Lifecycle.{preempt, finish}
use llm_serve.Engine.Scheduler.Decode.{choose_victim, make_room, schedule_decodes}
use llm_serve.Engine.Scheduler.Prefill.{admit, schedule_prefills}
use llm_serve.Engine.Scheduler.Invariant.{prefilled, Inv, Moves}
use llm_serve.Engine.Scheduler.Preempts.{Preempted, preempt_lem}
use llm_serve.Engine.Scheduler.Victims.{NotNewer, IsRunning}
use llm_serve.Engine.Scheduler.Choice.{choose_victim-NotNewer}
use llm_serve.Engine.Scheduler.Room.{HasRoom, make_room_lem}
use llm_serve.Engine.Scheduler.Finishes.{finished}
use llm_serve.Engine.Scheduler.Decodes.{schedule_decodes_lem}
use llm_serve.Engine.Scheduler.Searches.{admission-Granted}
use llm_serve.Engine.Scheduler.Admits.{Admitted, Shares, admit_lem}
use llm_serve.Engine.Scheduler.Prefills.{schedule_prefills_lem}
use llm_serve.Engine.Scheduler.Requests.{Requests, add_request-cases}
use llm_serve.Engine.Scheduler.Aborts.{Aborts, abort-cases}
use llm_serve.Engine.Scheduler.Early.{finish-queued}
use llm_serve.Engine.Scheduler.Steps.{Stepped, step_lem}
use llm_serve.Engine.Scheduler.Reach.{Reachable-Inv}
use llm_serve.Engine.Scheduler.Idle.{Ran, run_until_idle_lem}
use llm_serve.Tests.Samples.{
  digest, prompt, busy, busy-Reachable, busy-Inv, first_seq, first_runs, second_seq, second_runs,
  two_wait, two_wait-Inv, batch_of, waiting_seq, waiting_first, waiting_first-Idle, waiting_granted,
  no_match,
}

Reachable-Inv_example : Inv busy
Reachable-Inv_example = Reachable-Inv digest busy-Reachable

step_example : Stepped digest busy
step_example = step_lem digest busy busy-Inv

run_until_idle_example : Ran digest 10 two_wait
run_until_idle_example = run_until_idle_lem digest 10 two_wait two_wait-Inv

schedule_decodes_example : Runs (schedule_decodes digest 16) (batch_of busy) (λ left t.
    Moves (16 - left) (batch_of busy) t
    × (left ≤ 16)
    × (length t.out.decodes ≡ 0 + (16 - left))
    × (t.out.prefills ≡ []))
schedule_decodes_example = schedule_decodes_lem digest 16 (batch_of busy) busy-Inv

schedule_prefills_example : Runs (schedule_prefills digest 16) (batch_of two_wait) (λ left t.
    Moves (16 - left) (batch_of two_wait) t
    × (left ≤ 16)
    × (prefilled t.out.prefills ≡ 0 + (16 - left))
    × (t.out.decodes ≡ []))
schedule_prefills_example = schedule_prefills_lem digest 16 (batch_of two_wait) two_wait-Inv

make_room_example :
    Runs
      (make_room (length busy.running) (97 ∷ []) first_seq)
      (batch_of busy)
      (λ _ t. HasRoom (97 ∷ []) first_seq (batch_of busy) t)
make_room_example =
    make_room_lem (length busy.running) (97 ∷ []) first_seq (batch_of busy) busy-Inv first_runs
      (omega arith)

choose_victim-NotNewer_example :
    IsRunning busy (choose_victim (97 ∷ []) first_seq busy)
    × NotNewer second_seq (choose_victim (97 ∷ []) first_seq busy)
choose_victim-NotNewer_example =
    choose_victim-NotNewer busy-Inv first_seq second_seq first_runs second_runs

no_match-Shares : Shares waiting_seq no_match (batch_of two_wait)
no_match-Shares = record {
  cached = omega arith;
  owned = λ b h. absurd (omega arith);
  short = λ h. h;
}

admit_example :
    Runs
      (on_sched (λ s. record s { waiting = (98 ∷ []) ∷ [] }) >>= λ _.
        admit digest (97 ∷ []) waiting_seq no_match 6)
      (batch_of two_wait)
      (λ b t.
        Admitted
          (97 ∷ [])
          ((98 ∷ []) ∷ [])
          waiting_seq
          (batch_of two_wait)
          waiting_first
          no_match
          no_match-Shares
          6
          (admission-Granted two_wait waiting_seq no_match 16 6 waiting_granted)
          digest
          b
          t)
admit_example =
    admit_lem (97 ∷ []) ((98 ∷ []) ∷ []) waiting_seq (batch_of two_wait) waiting_first no_match
      no_match-Shares 6 (admission-Granted two_wait waiting_seq no_match 16 6 waiting_granted)
      digest

preempt_example :
    Runs
      (preempt (97 ∷ []))
      (batch_of busy)
      (λ _ t. Preempted (97 ∷ []) first_seq (batch_of busy) t)
preempt_example = preempt_lem (97 ∷ []) first_seq (batch_of busy) busy-Inv first_runs

add_request_example : Requests prompt 2 (some (99 ∷ [])) (some 5) busy
add_request_example = add_request-cases prompt 2 (some (99 ∷ [])) (some 5) busy busy-Inv

abort_example : Aborts (97 ∷ []) busy
abort_example = abort-cases (97 ∷ []) busy busy-Inv

finish-queued_example :
    (t : Scheduler) × (finish digest (97 ∷ []) two_wait ≡ (ok tt, t))
    × (lookup (97 ∷ []) t.by_id ≡ some (finished waiting_seq (two_wait.clock two_wait.readings)))
    × (t.waiting ≡ two_wait.waiting)
    × (t.swapped ≡ two_wait.swapped)
finish-queued_example =
    finish-queued digest (97 ∷ []) two_wait two_wait-Inv waiting_seq waiting_first-Idle refl
