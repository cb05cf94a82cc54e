-- ===== src/Engine/Blocks.antt =====
-- llm_serve/engine/block_manager.py: the pool of KV blocks, its reference counts and the block
-- tables of the sequences. A method is an action on the manager that returns or raises.
pub mod Pool
mod Loops
pub mod Invariant
pub mod Pins
pub mod Start
pub mod Usage
pub mod Alloc
pub mod Append
pub mod Release
use llm_serve.Prelude.{
  ℕ, zero, suc, ◌+◌, ◌-◌, ◌*◌, ◌/◌, Bool, true, false, not, ◌&&◌, Option, none, some, List, [], ◌∷◌,
  ◌++◌, length, get_or, replicate, incr, decr, Str, Dict, lookup, insert, remove, ltb, leb, ◌==◌,
  if◌then◌else◌, is_some, Error, block_allocation_error, value_error, index_error, key_error,
  Result, ok, err, Exec, pure, raise, ◌>>=◌, ◌>>◌, get_state, put_state,
}

pub record AllocationResult : Type 0 where
  pub seq_id : Str
  pub block_ids : List ℕ
  pub reused_blocks : ℕ
  pub new_blocks : ℕ

-- A fraction of two counts: the program divides them as floats.
pub record Ratio : Type 0 where
  pub num : ℕ
  pub den : ℕ

pub record BlockManagerStats : Type 0 where
  pub total_blocks : ℕ
  pub free_blocks : ℕ
  pub used_blocks : ℕ
  pub shared_blocks : ℕ
  pub usage : Ratio
  pub allocated_sequences : ℕ
  pub total_allocations : ℕ
  pub total_reused_blocks : ℕ

-- `free_list` is the stack `_free` with its top first: Python pops and appends at the end.
pub record BlockManager : Type 0 where
  pub block_size : ℕ
  pub num_blocks : ℕ
  pub watermark_blocks : ℕ
  pub free_list : List ℕ
  pub ref_counts : List ℕ
  pub tables : Dict (List ℕ)
  pub lengths : Dict ℕ
  pub total_allocations : ℕ
  pub total_reused_blocks : ℕ

-- `range(i, i + n)`
unfoldable pub range_from : ℕ → ℕ → List ℕ
range_from i zero = []
range_from i (suc n) = i ∷ range_from (suc i) n

-- The watermark is the fraction `w.num / w.den`; `int` rounds the product down.
unfoldable pub init : ℕ → ℕ → Ratio → Result BlockManager
unfolding range_from
init block_size num_blocks w =
    if ltb block_size 1
    then err value_error
    else if ltb num_blocks 1
    then err value_error
    else if not (ltb w.num w.den)
    then err value_error
    else ok (record {
      block_size = block_size;
      num_blocks = num_blocks;
      watermark_blocks = w.num * num_blocks / w.den;
      free_list = range_from 0 num_blocks;
      ref_counts = replicate num_blocks 0;
      tables = [];
      lengths = [];
      total_allocations = 0;
      total_reused_blocks = 0;
    })

unfoldable pub num_free_blocks : BlockManager → ℕ
num_free_blocks m = length m.free_list

unfoldable pub num_used_blocks : BlockManager → ℕ
num_used_blocks m = m.num_blocks - length m.free_list

unfoldable pub usage : BlockManager → Ratio
unfolding num_used_blocks
usage m = record { num = num_used_blocks m; den = m.num_blocks }

-- `sum(1 for rc in ref_counts if rc > 1)`
unfoldable pub count_shared : List ℕ → ℕ
count_shared [] = 0
count_shared (rc ∷ rest) = (if ltb 1 rc then 1 else 0) + count_shared rest

unfoldable pub num_shared_blocks : BlockManager → ℕ
unfolding count_shared
num_shared_blocks m = count_shared m.ref_counts

-- Ceiling division.
unfoldable pub blocks_for_tokens : BlockManager → ℕ → ℕ
blocks_for_tokens m num_tokens =
    if leb num_tokens 0 then 0 else (num_tokens + m.block_size - 1) / m.block_size

unfoldable pub ref_count : BlockManager → ℕ → Result ℕ
ref_count m block_id =
    if ltb block_id (length m.ref_counts)
    then ok (get_or m.ref_counts block_id 0)
    else err index_error

abbrev or_empty : Option (List ℕ) → List ℕ
or_empty none = []
or_empty (some t) = t

abbrev or_zero : Option ℕ → ℕ
or_zero none = 0
or_zero (some n) = n

unfoldable pub block_table : BlockManager → Str → List ℕ
block_table m seq_id = or_empty (lookup seq_id m.tables)

unfoldable pub seq_length : BlockManager → Str → ℕ
seq_length m seq_id = or_zero (lookup seq_id m.lengths)

-- `free - needed >= watermark` over the integers.
unfoldable pub can_allocate : BlockManager → ℕ → ℕ → Bool
unfolding num_free_blocks
can_allocate m num_tokens reused_blocks =
    leb (m.watermark_blocks + (blocks_for_tokens m num_tokens - reused_blocks)) (num_free_blocks m)

unfoldable pub blocks_needed_to_append : BlockManager → Str → ℕ → ℕ
unfolding block_table seq_length
blocks_needed_to_append m seq_id num_tokens =
    blocks_for_tokens m (seq_length m seq_id + num_tokens) - length (block_table m seq_id)

unfoldable pub can_append : BlockManager → Str → ℕ → Bool
unfolding num_free_blocks
can_append m seq_id num_tokens =
    leb (blocks_needed_to_append m seq_id num_tokens) (num_free_blocks m)

-- `self._ref_counts[block_id] += 1`
unfoldable pub add_ref : ℕ → Exec BlockManager (Unit {0})
add_ref block_id m =
    if ltb block_id (length m.ref_counts)
    then (ok tt, record m { ref_counts = incr m.ref_counts block_id })
    else (err index_error, m)

abbrev pop_from : List ℕ → Exec BlockManager ℕ
pop_from [] m = (err index_error, m)
pop_from (b ∷ rest) m = (ok b, record m { free_list = rest })

-- `self._free.pop()`
unfoldable pub pop_free : Exec BlockManager ℕ
pop_free m = pop_from m.free_list m

-- The loop of `allocate` over the reused blocks.
unfoldable pub adopt : List ℕ → Exec BlockManager (List ℕ)
unfolding add_ref
adopt [] = pure []
adopt (b ∷ rest) = do add_ref b; table ← adopt rest; pure (b ∷ table)

-- The loop of `allocate` over the blocks still needed.
unfoldable pub claim : ℕ → Exec BlockManager (List ℕ)
unfolding add_ref pop_free
claim zero = pure []
claim (suc n) = do b ← pop_free; add_ref b; table ← claim n; pure (b ∷ table)

abbrev record_table : Str → ℕ → List ℕ → ℕ → BlockManager → BlockManager
record_table seq_id num_tokens table reused m = record m {
  tables = insert seq_id table m.tables;
  lengths = insert seq_id num_tokens m.lengths;
  total_allocations = m.total_allocations + 1;
  total_reused_blocks = m.total_reused_blocks + reused;
}

-- `needed` is never negative here: the second test bounds the reused blocks.
unfoldable pub allocate : Str → ℕ → List ℕ → Exec BlockManager AllocationResult
unfolding num_free_blocks
allocate seq_id num_tokens reused = do
  m ← get_state
  let needed = blocks_for_tokens m num_tokens - length reused
  if is_some (lookup seq_id m.tables)
      then raise block_allocation_error
      else if ltb num_tokens (length reused * m.block_size)
      then raise block_allocation_error
      else if ltb (num_free_blocks m) needed
      then raise block_allocation_error
      else do
        adopted ← adopt reused
        fresh ← claim needed
        m' ← get_state
        put_state (record_table seq_id num_tokens (adopted ++ fresh) (length reused) m')
        pure (record {
          seq_id = seq_id;
          block_ids = adopted ++ fresh;
          reused_blocks = length reused;
          new_blocks = needed;
        })

abbrev push_block : Str → ℕ → Option (List ℕ) → Exec BlockManager (Unit {0})
push_block seq_id b none m = (err key_error, m)
push_block seq_id b (some t) m = (ok tt, record m { tables = insert seq_id (t ++ b ∷ []) m.tables })

-- `self._tables[seq_id].append(block_id)`
unfoldable pub push_table : Str → ℕ → Exec BlockManager (Unit {0})
push_table seq_id b m = push_block seq_id b (lookup seq_id m.tables) m

-- The loop of `append_tokens`.
unfoldable pub grow : Str → ℕ → Exec BlockManager (List ℕ)
unfolding add_ref pop_free push_table
grow seq_id zero = pure []
grow seq_id (suc n) = do
  b ← pop_free
  add_ref b
  push_table seq_id b
  new_blocks ← grow seq_id n
  pure (b ∷ new_blocks)

abbrev lengthen : Str → ℕ → Option ℕ → Exec BlockManager (Unit {0})
lengthen seq_id n none m = (err key_error, m)
lengthen seq_id n (some k) m = (ok tt, record m { lengths = insert seq_id (k + n) m.lengths })

-- `self._lengths[seq_id] += num_tokens`
unfoldable pub add_length : Str → ℕ → Exec BlockManager (Unit {0})
add_length seq_id n m = lengthen seq_id n (lookup seq_id m.lengths) m

unfoldable pub append_tokens : Str → ℕ → Exec BlockManager (List ℕ)
unfolding num_free_blocks
append_tokens seq_id num_tokens = do
  m ← get_state
  let needed = blocks_needed_to_append m seq_id num_tokens
  if not (is_some (lookup seq_id m.tables))
      then raise block_allocation_error
      else if ltb (num_free_blocks m) needed
      then raise block_allocation_error
      else do new_blocks ← grow seq_id needed; add_length seq_id num_tokens; pure new_blocks

-- `_release_block`: true if the block went back to the free list.
unfoldable pub release_block : ℕ → Exec BlockManager Bool
release_block block_id m =
    if not (ltb block_id (length m.ref_counts))
    then (err index_error, m)
    else if leb (get_or m.ref_counts block_id 0) 0
    then (err block_allocation_error, m)
    else let lowered = decr m.ref_counts block_id in
      if get_or lowered block_id 0 == 0
      then (ok true, record m { ref_counts = lowered; free_list = block_id ∷ m.free_list })
      else (ok false, record m { ref_counts = lowered })

-- The loop of `free`: how many blocks were reclaimed.
unfoldable pub release_all : List ℕ → Exec BlockManager ℕ
release_all [] = pure 0
release_all (b ∷ rest) = do
  freed ← release_block b
  reclaimed ← release_all rest
  pure ((if freed then 1 else 0) + reclaimed)

abbrev free_table : Str → Option (List ℕ) → Exec BlockManager ℕ
free_table seq_id none m = (ok 0, m)
free_table seq_id (some table) m =
    release_all table
      (record m { tables = remove seq_id m.tables; lengths = remove seq_id m.lengths })

unfoldable pub free : Str → Exec BlockManager ℕ
free seq_id m = free_table seq_id (lookup seq_id m.tables) m

unfoldable pub pin : ℕ → Exec BlockManager (Unit {0})
pin block_id m =
    if not (ltb block_id m.num_blocks)
    then (err block_allocation_error, m)
    else if not (ltb block_id (length m.ref_counts))
    then (err index_error, m)
    else if get_or m.ref_counts block_id 0 == 0
    then (err block_allocation_error, m)
    else (ok tt, record m { ref_counts = incr m.ref_counts block_id })

unfoldable pub unpin : ℕ → Exec BlockManager Bool
unfolding release_block
unpin = release_block

unfoldable pub reset : BlockManager → BlockManager
unfolding range_from
reset m = record m {
  free_list = range_from 0 m.num_blocks;
  ref_counts = replicate m.num_blocks 0;
  tables = [];
  lengths = [];
}

unfoldable pub stats : BlockManager → BlockManagerStats
unfolding num_free_blocks num_used_blocks num_shared_blocks usage
stats m = record {
  total_blocks = m.num_blocks;
  free_blocks = num_free_blocks m;
  used_blocks = num_used_blocks m;
  shared_blocks = num_shared_blocks m;
  usage = usage m;
  allocated_sequences = length m.tables;
  total_allocations = m.total_allocations;
  total_reused_blocks = m.total_reused_blocks;
}
