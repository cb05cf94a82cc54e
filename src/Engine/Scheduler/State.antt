-- ===== src/Engine/Scheduler/State.antt =====
-- llm_serve/engine/scheduler.py: the data of the scheduler, and the access to its sequences.
--
-- A `SequenceGroup` is an object that `_by_id` and a queue share. The model keeps the object in
-- `by_id`, which never drops one, and the queues hold sequence ids as references to it.
-- Arrival times and clock readings are numbers of ticks; `clock i` is the `i`-th reading of
-- `time.monotonic()`.
use llm_serve.Prelude.{
  ℕ, ◌+◌, ◌-◌, Bool, true, false, ◌&&◌, ◌||◌, Option, none, some, List, [], ◌∷◌, length, Str,
  str_eq, str_lt, Dict, lookup, insert, ltb, leb, ◌==◌, if◌then◌else◌, block_allocation_error,
  key_error, Result, ok, err, Exec,
}
use llm_serve.Engine.Blocks.{BlockManager}
use llm_serve.Engine.Prefix.{Shared}

pub data SeqStatus : Type 0 where
  waiting running swapped finished aborted : SeqStatus

pub data PreemptionMode : Type 0 where
  recompute swap : PreemptionMode

pub record SequenceGroup : Type 0 where
  pub seq_id : Str
  pub prompt_token_ids : List ℕ
  pub max_tokens : ℕ
  pub arrival_time : ℕ
  pub status : SeqStatus
  pub num_prefilled : ℕ
  pub num_generated : ℕ
  pub num_cached_tokens : ℕ
  pub preemption_count : ℕ
  pub first_scheduled_time : Option ℕ
  pub finish_time : Option ℕ

abbrev pub prompt_len : SequenceGroup → ℕ
prompt_len q = length q.prompt_token_ids

abbrev pub prefill_done : SequenceGroup → Bool
prefill_done q = leb (prompt_len q) q.num_prefilled

abbrev pub num_computed_tokens : SequenceGroup → ℕ
num_computed_tokens q = q.num_prefilled + q.num_generated

abbrev pub remaining_prefill : SequenceGroup → ℕ
remaining_prefill q = prompt_len q - q.num_prefilled

abbrev pub is_running : SeqStatus → Bool
is_running SeqStatus.running = true
is_running _ = false

abbrev pub ended : SeqStatus → Bool
ended SeqStatus.finished = true
ended SeqStatus.aborted = true
ended _ = false

abbrev pub is_finished : SequenceGroup → Bool
is_finished q = ended q.status

abbrev pub reset_for_recompute : SequenceGroup → SequenceGroup
reset_for_recompute q = record q {
  num_prefilled = q.num_cached_tokens;
  num_generated = 0;
  preemption_count = q.preemption_count + 1;
  status = SeqStatus.waiting;
}

-- `_priority(a) < _priority(b)`: the earlier arrival, then the smaller id.
unfoldable pub priority_lt : SequenceGroup → SequenceGroup → Bool
priority_lt a b =
    ltb a.arrival_time b.arrival_time
    || (a.arrival_time == b.arrival_time && str_lt a.seq_id b.seq_id)

pub record ScheduledPrefill : Type 0 where
  pub seq_id : Str
  pub num_tokens : ℕ
  pub is_chunk : Bool
  pub cached_tokens : ℕ

pub record SchedulerOutput : Type 0 where
  pub step : ℕ
  pub prefills : List ScheduledPrefill
  pub decodes : List Str
  pub preempted : List Str
  pub finished : List Str
  pub batched_tokens : ℕ

abbrev pub new_output : ℕ → SchedulerOutput
new_output step = record {
  step = step;
  prefills = [];
  decodes = [];
  preempted = [];
  finished = [];
  batched_tokens = 0;
}

abbrev pub batch_size : SchedulerOutput → ℕ
batch_size out = length out.prefills + length out.decodes

pub record Scheduler : Type 0 where
  pub max_num_seqs : ℕ
  pub max_num_batched_tokens : ℕ
  pub enable_chunked_prefill : Bool
  pub max_waiting : ℕ
  pub preemption_mode : PreemptionMode
  pub shared : Shared
  pub waiting : List Str
  pub running : List Str
  pub swapped : List Str
  pub by_id : Dict SequenceGroup
  pub step_count : ℕ
  pub total_preemptions : ℕ
  pub total_prompt_tokens : ℕ
  pub total_generation_tokens : ℕ
  pub finished_count : ℕ
  pub batch_sizes : List ℕ
  pub next_id : ℕ
  pub clock : ℕ → ℕ
  pub readings : ℕ

-- The scheduler and the output that a method fills.
pub record Batch : Type 0 where
  pub sched : Scheduler
  pub out : SchedulerOutput

-- `k in queue`
unfoldable pub is_in : Str → List Str → Bool
is_in k [] = false
is_in k (j ∷ q) = str_eq j k || is_in k q

-- `queue.remove(k)` of a sequence that is there.
unfoldable pub erase : Str → List Str → List Str
erase k [] = []
erase k (j ∷ q) = if str_eq j k then q else j ∷ erase k q

abbrev pub modify : {S : Type 0} → (S → S) → Exec S (Unit {0})
modify write state = (ok tt, write state)

abbrev pub gets : {S A : Type 0} → (S → A) → Exec S A
gets read state = (ok (read state), state)

abbrev pub resolve : Option SequenceGroup → Exec Batch SequenceGroup
resolve none r = (err key_error, r)
resolve (some q) r = (ok q, r)

-- The object that a reference stands for.
unfoldable pub deref : Str → Exec Batch SequenceGroup
deref k r = resolve (lookup k r.sched.by_id) r

-- The object after writes to its fields.
abbrev pub write_seq : Str → SequenceGroup → Scheduler → Scheduler
write_seq k q s = record s { by_id = insert k q s.by_id }

abbrev pub on_sched : (Scheduler → Scheduler) → Exec Batch (Unit {0})
on_sched f = modify (λ r. record r { sched = f r.sched })

abbrev pub on_out : (SchedulerOutput → SchedulerOutput) → Exec Batch (Unit {0})
on_out f = modify (λ r. record r { out = f r.out })

-- The methods of the prefix cache and of the block manager, on the objects of the scheduler.
abbrev pub on_shared : {A : Type 0} → Exec Shared A → Exec Batch A
on_shared act r = (
  (act r.sched.shared).0,
  record r { sched = record (r.sched) { shared = (act r.sched.shared).1 } },
)

abbrev pub on_manager : {A : Type 0} → Exec BlockManager A → Exec Batch A
on_manager act = on_shared (λ s. ((act s.blocks).0, record s { blocks = (act s.blocks).1 }))

-- `time.monotonic()`
unfoldable pub read_clock : Exec Batch ℕ
read_clock r = (
  ok (r.sched.clock r.sched.readings),
  record r { sched = record (r.sched) { readings = r.sched.readings + 1 } },
)

abbrev pub caught : {A : Type 0} → Result A → Result Bool
caught (ok a) = ok true
caught (err block_allocation_error) = ok false
caught (err e) = err e

-- `try: act except BlockAllocationError: …`: whether `act` returned.
abbrev pub attempt : {A : Type 0} → Exec Batch A → Exec Batch Bool
attempt act r = (caught (act r).0, (act r).1)
