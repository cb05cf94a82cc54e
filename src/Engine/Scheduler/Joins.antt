-- ===== src/Engine/Scheduler/Joins.antt =====
-- A sequence of llm_serve/engine/scheduler.py takes blocks and starts to run: it is resumed or
-- admitted.
use llm_serve.Prelude.{
  ℕ, ◌*◌, ◌≤◌, ◌<◌, ◌≡◌, refl, ap, true, false, Option, none, some, List, [], ◌∷◌, ◌++◌, length,
  length-append, Str, str_eq_iff, lookup, insert, lookup-insert, arith,
}
use llm_serve.Engine.Blocks.{BlockManager, blocks_for_tokens}
use llm_serve.Engine.Blocks
use llm_serve.Engine.Blocks.Invariant.{Fits, IsValid, blocks_for_tokens_mono}
use llm_serve.Engine.Blocks.Alloc.{CanAllocate, Owned, after_allocate, after_allocate-IsValid}
use llm_serve.Engine.Prefix.Find.{pins}
use llm_serve.Engine.Scheduler.State.{
  SeqStatus, SequenceGroup, Scheduler, num_computed_tokens, is_running,
}
use llm_serve.Engine.Scheduler.Queues.{occ, occ-append}
use llm_serve.Engine.Scheduler.Invariant.{Inv, seat, in_waiting, in_swapped}

-- A sequence without a length has no table.
no_table :
    (m : BlockManager) (p : ℕ → ℕ) (k : Str)
    → IsValid m p
    → lookup k m.lengths ≡ none
    → lookup k m.tables ≡ none
no_table m p k v e = split (lookup k m.tables) refl (rw e at (v.fits k))
  where
    split :
        (o : Option (List ℕ))
        → lookup k m.tables ≡ o
        → Fits m (lookup k m.tables) none
        → lookup k m.tables ≡ none
    split none f fit = f
    split (some t) f fit = absurd (rw f at fit)

-- The sequence `q` that `k` stands for, which does not run.
pub record Idle (s : Scheduler) (k : Str) (q : SequenceGroup) : Type 0 where
  pub found : lookup k s.by_id ≡ some q
  pub idle : is_running q.status ≡ false

-- `k` stands for the running `p`, with blocks for `n` tokens; `ws` wait and `ss` are swapped out.
abbrev pub joined : Scheduler → Str → SequenceGroup → ℕ → List ℕ → List Str → List Str → Scheduler
joined s k p n reused ws ss = record s {
  shared = record (s.shared) { blocks = after_allocate s.shared.blocks k n reused };
  by_id = insert k p s.by_id;
  running = s.running ++ k ∷ [];
  waiting = ws;
  swapped = ss;
}

-- `p` is `q` with `n` computed tokens, and runs.
pub record Started (q : SequenceGroup) (n : ℕ) (p : SequenceGroup) : Type 0 where
  pub seq_id : p.seq_id ≡ q.seq_id
  pub status : p.status ≡ SeqStatus.running
  pub prompt : p.prompt_token_ids ≡ q.prompt_token_ids
  pub computed : num_computed_tokens p ≡ n
  pub begun : 0 < n

module _ {s : Scheduler} {k : Str} {q : SequenceGroup} (v : Inv s) (a : Idle s k q) where
  pub idle-fresh : lookup k s.shared.blocks.tables ≡ none
  idle-fresh =
      no_table s.shared.blocks (pins s.shared) k v.pinned.manager
        (ground (arith, v.tokens k, a.found, a.idle))

  -- What was asked for `total` tokens is granted for `n` of them.
  pub CanAllocate-part :
      (n total : ℕ) (reused : List ℕ)
      → Blocks.can_allocate s.shared.blocks total (length reused) ≡ true
      → length reused * s.shared.blocks.block_size ≤ n
      → n ≤ total
      → CanAllocate s.shared.blocks k n reused
  unfolding Blocks.can_allocate Blocks.num_free_blocks
  CanAllocate-part n total reused fits short part = record {
    fresh = idle-fresh;
    short = short;
    enough = ground (
      arith,
      fits,
      blocks_for_tokens_mono s.shared.blocks n total v.pinned.manager.positive part,
    );
  }

  pub joined-Inv :
      (p : SequenceGroup) (n : ℕ) (reused : List ℕ) (ws ss : List Str)
      → Started q n p
      → Owned s.shared.blocks (pins s.shared) k n reused
      → CanAllocate s.shared.blocks k n reused
      → length s.running < s.max_num_seqs
      → ((j : Str) → occ j ws ≡ seat in_waiting (lookup j (insert k p s.by_id)))
      → ((j : Str) → occ j ss ≡ seat in_swapped (lookup j (insert k p s.by_id)))
      → Inv (joined s k p n reused ws ss)
  joined-Inv p n reused ws ss b owned c room waits swaps = record {
    pinned = record {
      manager =
          after_allocate-IsValid s.shared.blocks (pins s.shared) k n reused v.pinned.manager owned
            c;
      distinct = v.pinned.distinct;
    };
    unlimited = v.unlimited;
    waits = waits;
    runs = λ j. ground (
      arith,
      v.runs j,
      a.found,
      a.idle,
      b.status,
      lookup-insert k j p s.by_id,
      str_eq_iff k j,
      occ-append j s.running (k ∷ []),
    );
    swaps = swaps;
    tokens = λ j. ground (
      arith,
      v.tokens j,
      b.status,
      b.computed,
      lookup-insert k j p s.by_id,
      lookup-insert k j n s.shared.blocks.lengths,
    );
    names = λ j. ground (
      arith,
      v.names j,
      v.names k,
      a.found,
      b.seq_id,
      b.status,
      b.computed,
      b.begun,
      ap (λ xs. length xs) b.prompt,
      lookup-insert k j p s.by_id,
      str_eq_iff k j,
    );
    capped = omega (arith, room, length-append s.running (k ∷ []));
  }
