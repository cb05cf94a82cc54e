-- ===== src/Tests/Samples.antt =====
-- Concrete schedulers, caches and pools.
use llm_serve.Prelude.{
  codes, ℕ, ◌<◌, count, Runs, arith, ◌+◌, insert, str_eq, remove, show, show_from, ◌≡◌, refl, true,
  none, some, List, [], ◌∷◌, map, Str, lookup, Result, ok, err,
}
use llm_serve.Engine.Blocks
use llm_serve.Engine.Blocks.{BlockManager}
use llm_serve.Engine.Prefix
use llm_serve.Engine.Scheduler.State
use llm_serve.Engine.Scheduler.Step
use llm_serve.Engine.Scheduler.Lifecycle
use llm_serve.Engine.Scheduler.Decode
use llm_serve.Engine.Scheduler.Prefill
use llm_serve.Engine.Blocks.{block_table}
use llm_serve.Engine.Blocks.Invariant.{owners}
use llm_serve.Engine.Prefix.{PrefixMatch, Shared}
use llm_serve.Engine.Prefix.Find.{IsPinned, pins}
use llm_serve.Engine.Prefix.Payload.{NoBar}
use llm_serve.Engine.Prefix.Chain.{IsDigest}
use llm_serve.Engine.Scheduler.Lifecycle.{preempt}
use llm_serve.Engine.Scheduler.Prefill.{admission}
use llm_serve.Engine.Scheduler.Step.{new_seq}
use llm_serve.Engine.Scheduler.Preempts.{Preempted, preempt_lem}
use llm_serve.Engine.Scheduler.Requests.{add_request-Inv, init-Inv}
use llm_serve.Engine.Scheduler.Finishes.{table-owned}
use llm_serve.Engine.Scheduler.Joins.{Idle}
use llm_serve.Engine.Scheduler.Admits.{Head}
use llm_serve.Engine.Scheduler.State.{
  Batch, new_output, PreemptionMode, Scheduler, SequenceGroup, SeqStatus,
}
use llm_serve.Engine.Scheduler.Step.{Settings, init, add_request, step}
use llm_serve.Engine.Scheduler.Invariant.{Inv}
use llm_serve.Engine.Scheduler.Reach.{Reachable, Call, Reachable-Inv}
use llm_serve.Engine.Scheduler.Preempts.{Running}

-- A digest of the samples: one more character in front, and no `|`.
abbrev pub digest : Str → Str
digest s = 0 ∷ map (λ c. c + 125) s

abbrev pub settings : Settings
settings = record {
  max_num_seqs = 4;
  max_num_batched_tokens = 16;
  block_size = 4;
  num_gpu_blocks = 8;
  watermark = record { num = 1; den = 8 };
  enable_chunked_prefill = true;
  enable_prefix_caching = true;
  max_waiting = 4;
  preemption_mode = codes "swap";
}

abbrev pub clock : ℕ → ℕ
clock i = i

abbrev get : {A : Type 0} → A → Result A → A
get a (ok b) = b
get a (err e) = a

abbrev pub prompt : List ℕ
prompt = 1 ∷ 2 ∷ 3 ∷ 4 ∷ 5 ∷ 6 ∷ []

-- Two requests wait, then the first step prefills both.
abbrev pub started : Result Scheduler
started = init settings clock

abbrev fallback : Scheduler
fallback = record {
  max_num_seqs = 0;
  max_num_batched_tokens = 0;
  enable_chunked_prefill = true;
  max_waiting = 0;
  preemption_mode = PreemptionMode.recompute;
  shared = record {
    cache = record {
      enabled = true;
      max_entries = none;
      entries = [];
      queried_blocks = 0;
      hit_blocks = 0;
      evictions = 0;
      queries = 0;
      queries_with_hit = 0;
    };
    blocks = record {
      block_size = 0;
      num_blocks = 0;
      watermark_blocks = 0;
      free_list = [];
      ref_counts = [];
      tables = [];
      lengths = [];
      total_allocations = 0;
      total_reused_blocks = 0;
    };
  };
  waiting = [];
  running = [];
  swapped = [];
  by_id = [];
  step_count = 0;
  total_preemptions = 0;
  total_prompt_tokens = 0;
  total_generation_tokens = 0;
  finished_count = 0;
  batch_sizes = [];
  next_id = 0;
  clock = clock;
  readings = 0;
}

abbrev pub idle : Scheduler
idle = get fallback started

abbrev pub one_waits : Scheduler
one_waits = (add_request prompt 2 (some (97 ∷ [])) (some 0) idle).1

abbrev pub two_wait : Scheduler
two_wait = (add_request (1 ∷ 2 ∷ 3 ∷ 4 ∷ 7 ∷ []) 3 (some (98 ∷ [])) (some 1) one_waits).1

abbrev pub busy : Scheduler
busy = (step digest two_wait).1

pub idle_starts : started ≡ ok idle
unfolding init Blocks.init str_eq
idle_starts = refl

pub busy-Reachable : Reachable digest settings clock busy
busy-Reachable =
    Reachable.goes_on two_wait busy
      (Reachable.goes_on one_waits two_wait
        (Reachable.goes_on idle one_waits (Reachable.starts idle idle_starts)
          (Call.requests prompt 2 (some (97 ∷ [])) (some 0) idle))
        (Call.requests (1 ∷ 2 ∷ 3 ∷ 4 ∷ 7 ∷ []) 3 (some (98 ∷ [])) (some 1) one_waits))
      (Call.steps two_wait)

-- The first sequence as it runs.
abbrev pub first_seq : SequenceGroup
first_seq = record {
  seq_id = 97 ∷ [];
  prompt_token_ids = prompt;
  max_tokens = 2;
  arrival_time = 0;
  status = SeqStatus.running;
  num_prefilled = 6;
  num_generated = 0;
  num_cached_tokens = 0;
  preemption_count = 0;
  first_scheduled_time = some 0;
  finish_time = none;
}

pub first_runs : Running busy (97 ∷ []) first_seq
unfolding lookup step Step.run_phases Decode.schedule_decodes Decode.decode_loop add_request init
    Blocks.init insert str_eq Decode.schedule_swapped Decode.resume_loop Prefill.schedule_prefills
    Prefill.chunk_loop Prefill.admit_loop State.is_in Prefix.find Blocks.add_length Blocks.add_ref
    Blocks.adopt Blocks.allocate Blocks.append_tokens Blocks.block_table Blocks.blocks_for_tokens
    Blocks.blocks_needed_to_append Blocks.can_allocate Blocks.can_append Blocks.claim Blocks.free
    Blocks.grow Blocks.num_free_blocks Blocks.pin Blocks.pop_free Blocks.push_table
    Blocks.range_from Blocks.release_all Blocks.release_block Blocks.seq_length Blocks.unpin
    Prefix.add Prefix.drop_last Prefix.enforce_capacity Prefix.evict_above Prefix.evict_one
    Prefix.hash_blocks Prefix.hash_from Prefix.init Prefix.join_tokens Prefix.match_blocks
    Prefix.move_to_end Prefix.num_cached_blocks Prefix.payload Prefix.publish Prefix.trim
    Lifecycle.publish_prompt Prefill.admission Prefill.admit Prefill.start_seq State.deref
    State.read_clock remove show show_from
first_runs = record { found = refl; status = refl }

-- The second one, which shares a cached block.
abbrev pub second_seq : SequenceGroup
second_seq = record {
  seq_id = 98 ∷ [];
  prompt_token_ids = 1 ∷ 2 ∷ 3 ∷ 4 ∷ 7 ∷ [];
  max_tokens = 3;
  arrival_time = 1;
  status = SeqStatus.running;
  num_prefilled = 5;
  num_generated = 0;
  num_cached_tokens = 4;
  preemption_count = 0;
  first_scheduled_time = some 1;
  finish_time = none;
}

pub second_runs : Running busy (98 ∷ []) second_seq
unfolding lookup step Step.run_phases Decode.schedule_decodes Decode.decode_loop add_request init
    Blocks.init insert str_eq Decode.schedule_swapped Decode.resume_loop Prefill.schedule_prefills
    Prefill.chunk_loop Prefill.admit_loop State.is_in Prefix.find Blocks.add_length Blocks.add_ref
    Blocks.adopt Blocks.allocate Blocks.append_tokens Blocks.block_table Blocks.blocks_for_tokens
    Blocks.blocks_needed_to_append Blocks.can_allocate Blocks.can_append Blocks.claim Blocks.free
    Blocks.grow Blocks.num_free_blocks Blocks.pin Blocks.pop_free Blocks.push_table
    Blocks.range_from Blocks.release_all Blocks.release_block Blocks.seq_length Blocks.unpin
    Prefix.add Prefix.drop_last Prefix.enforce_capacity Prefix.evict_above Prefix.evict_one
    Prefix.hash_blocks Prefix.hash_from Prefix.init Prefix.join_tokens Prefix.match_blocks
    Prefix.move_to_end Prefix.num_cached_blocks Prefix.payload Prefix.publish Prefix.trim
    Lifecycle.publish_prompt Prefill.admission Prefill.admit Prefill.start_seq State.deref
    State.read_clock remove show show_from
second_runs = record { found = refl; status = refl }

pub busy_enabled : busy.shared.cache.enabled ≡ true
unfolding lookup step Step.run_phases Decode.schedule_decodes Decode.decode_loop add_request init
    Blocks.init insert str_eq Decode.schedule_swapped Decode.resume_loop Prefill.schedule_prefills
    Prefill.chunk_loop Prefill.admit_loop State.is_in Prefix.find Blocks.add_length Blocks.add_ref
    Blocks.adopt Blocks.allocate Blocks.append_tokens Blocks.block_table Blocks.blocks_for_tokens
    Blocks.blocks_needed_to_append Blocks.can_allocate Blocks.can_append Blocks.claim Blocks.free
    Blocks.grow Blocks.num_free_blocks Blocks.pin Blocks.pop_free Blocks.push_table
    Blocks.range_from Blocks.release_all Blocks.release_block Blocks.seq_length Blocks.unpin
    Prefix.add Prefix.drop_last Prefix.enforce_capacity Prefix.evict_above Prefix.evict_one
    Prefix.hash_blocks Prefix.hash_from Prefix.init Prefix.join_tokens Prefix.match_blocks
    Prefix.move_to_end Prefix.num_cached_blocks Prefix.payload Prefix.publish Prefix.trim
    Lifecycle.publish_prompt Prefill.admission Prefill.admit Prefill.start_seq State.deref
    State.read_clock remove show show_from
busy_enabled = refl

pub two_wait-Inv : Inv two_wait
two_wait-Inv =
    add_request-Inv (1 ∷ 2 ∷ 3 ∷ 4 ∷ 7 ∷ []) 3 (some (98 ∷ [])) (some 1) one_waits (
      add_request-Inv prompt 2 (some (97 ∷ [])) (some 0) idle (init-Inv settings clock idle_starts))

pub busy-Inv : Inv busy
busy-Inv = Reachable-Inv digest busy-Reachable

-- A batch on a scheduler, with nothing in it yet.
abbrev pub batch_of : Scheduler → Batch
batch_of s = record { sched = s; out = new_output s.step_count }

-- The first sequence was swapped out.
pub swap_out :
    Runs
      (preempt (97 ∷ []))
      (batch_of busy)
      (λ _ t. Preempted (97 ∷ []) first_seq (batch_of busy) t)
swap_out = preempt_lem (97 ∷ []) first_seq (batch_of busy) busy-Inv first_runs

abbrev pub one_swapped : Batch
one_swapped = swap_out.final

-- The first request as it waits.
abbrev pub waiting_seq : SequenceGroup
waiting_seq = new_seq (97 ∷ []) prompt 2 0

pub waiting_first : Head (97 ∷ []) ((98 ∷ []) ∷ []) waiting_seq (batch_of two_wait)
unfolding lookup step Step.run_phases Decode.schedule_decodes Decode.decode_loop add_request init
    Blocks.init insert str_eq Decode.schedule_swapped Decode.resume_loop Prefill.schedule_prefills
    Prefill.chunk_loop Prefill.admit_loop State.is_in Prefix.find Blocks.add_length Blocks.add_ref
    Blocks.adopt Blocks.allocate Blocks.append_tokens Blocks.block_table Blocks.blocks_for_tokens
    Blocks.blocks_needed_to_append Blocks.can_allocate Blocks.can_append Blocks.claim Blocks.free
    Blocks.grow Blocks.num_free_blocks Blocks.pin Blocks.pop_free Blocks.push_table
    Blocks.range_from Blocks.release_all Blocks.release_block Blocks.seq_length Blocks.unpin
    Prefix.add Prefix.drop_last Prefix.enforce_capacity Prefix.evict_above Prefix.evict_one
    Prefix.hash_blocks Prefix.hash_from Prefix.init Prefix.join_tokens Prefix.match_blocks
    Prefix.move_to_end Prefix.num_cached_blocks Prefix.payload Prefix.publish Prefix.trim
    Lifecycle.publish_prompt Prefill.admission Prefill.admit Prefill.start_seq State.deref
    State.read_clock remove show show_from
waiting_first = record { valid = two_wait-Inv; queue = refl; found = refl; seat = refl }

abbrev pub no_match : PrefixMatch
no_match = record { block_ids = []; num_cached_tokens = 0; num_prompt_tokens = 6 }

pub waiting_granted : admission two_wait waiting_seq no_match 16 ≡ some 6
unfolding lookup step Step.run_phases Decode.schedule_decodes Decode.decode_loop add_request init
    Blocks.init insert str_eq Decode.schedule_swapped Decode.resume_loop Prefill.schedule_prefills
    Prefill.chunk_loop Prefill.admit_loop State.is_in Prefix.find Blocks.add_length Blocks.add_ref
    Blocks.adopt Blocks.allocate Blocks.append_tokens Blocks.block_table Blocks.blocks_for_tokens
    Blocks.blocks_needed_to_append Blocks.can_allocate Blocks.can_append Blocks.claim Blocks.free
    Blocks.grow Blocks.num_free_blocks Blocks.pin Blocks.pop_free Blocks.push_table
    Blocks.range_from Blocks.release_all Blocks.release_block Blocks.seq_length Blocks.unpin
    Prefix.add Prefix.drop_last Prefix.enforce_capacity Prefix.evict_above Prefix.evict_one
    Prefix.hash_blocks Prefix.hash_from Prefix.init Prefix.join_tokens Prefix.match_blocks
    Prefix.move_to_end Prefix.num_cached_blocks Prefix.payload Prefix.publish Prefix.trim
    Lifecycle.publish_prompt Prefill.admission Prefill.admit Prefill.start_seq State.deref
    State.read_clock remove show show_from
waiting_granted = refl

pub waiting_first-Idle : Idle two_wait (97 ∷ []) waiting_seq
waiting_first-Idle = record { found = waiting_first.found; idle = refl }

-- The cache with a capacity of one entry.
abbrev pub full : Shared
full = record (busy.shared) { cache = record (busy.shared.cache) { max_entries = some 1 } }

pub full-IsPinned : IsPinned full
full-IsPinned = record { manager = busy-Inv.pinned.manager; distinct = busy-Inv.pinned.distinct }

-- The blocks of the first sequence, which has an owner for each.
abbrev pub first_blocks : List ℕ
first_blocks = block_table busy.shared.blocks (97 ∷ [])

pub first_blocks-owned :
    (b : ℕ) → 0 < count b first_blocks → 0 < owners busy.shared.blocks (pins busy.shared) b
first_blocks-owned = table-owned busy.shared.blocks (pins busy.shared) (97 ∷ [])

map_shift-injective : (p q : List ℕ) → map (λ c. c + 125) p ≡ map (λ c. c + 125) q → p ≡ q
map_shift-injective [] [] e = refl
map_shift-injective [] (c ∷ q) e = absurd (cc e)
map_shift-injective (c ∷ p) [] e = absurd (cc e)
map_shift-injective (c ∷ p) (d ∷ q) e = ground (arith, map_shift-injective p q)

map_shift-NoBar : (p : List ℕ) → NoBar (map (λ c. c + 125) p)
map_shift-NoBar [] = tt
map_shift-NoBar (c ∷ p) = (λ e. absurd (omega arith), map_shift-NoBar p)

pub digest-IsDigest : IsDigest digest
digest-IsDigest = record {
  injective = λ p q e. map_shift-injective p q (ground arith);
  no_bar = λ p. (λ e. absurd (omega arith), map_shift-NoBar p);
  not_seed = λ p e. absurd (ground arith);
}
