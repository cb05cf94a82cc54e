-- ===== src/Engine/Scheduler/Grows.antt =====
-- A running sequence of llm_serve/engine/scheduler.py takes more blocks: a decode or a chunk.
use llm_serve.Prelude.{
  ℕ, ◌+◌, ◌≡◌, refl, ap, ◌∙◌, true, some, List, length, Str, str_eq_iff, lookup, insert,
  lookup-insert, ok, arith, take,
}
use llm_serve.Engine.Blocks.{BlockManager, blocks_needed_to_append}
use llm_serve.Engine.Blocks
use llm_serve.Engine.Blocks.Append.{Known-tokens, grown, append_tokens_ok, grown-IsValid}
use llm_serve.Engine.Prefix.Find.{IsPinned, pins}
use llm_serve.Engine.Scheduler.State.{SequenceGroup, Scheduler, num_computed_tokens}
use llm_serve.Engine.Scheduler.Invariant.{Inv}
use llm_serve.Engine.Scheduler.Preempts.{Running, running-occ, running-named}

-- `q` with `n` more computed tokens.
pub record Longer (q : SequenceGroup) (n : ℕ) (p : SequenceGroup) : Type 0 where
  pub seq_id : p.seq_id ≡ q.seq_id
  pub status : p.status ≡ q.status
  pub prompt : p.prompt_token_ids ≡ q.prompt_token_ids
  pub computed : num_computed_tokens p ≡ num_computed_tokens q + n

-- The scheduler where `k` stands for `p`, over the grown block manager `m`.
abbrev pub regrown : Scheduler → BlockManager → Str → SequenceGroup → Scheduler
regrown s m k p = record s { shared = record (s.shared) { blocks = m }; by_id = insert k p s.by_id }

-- What an appended slice does to the block manager.
pub record Grown (s : Scheduler) (k : Str) (q : SequenceGroup) (n : ℕ) : Type 0 where
  pub fresh : List ℕ
  pub manager : BlockManager
  pub run : Blocks.append_tokens k n s.shared.blocks ≡ (ok fresh, manager)
  pub pinned : IsPinned (record (s.shared) { blocks = manager })
  pub lengths : manager.lengths ≡ insert k (num_computed_tokens q + n) s.shared.blocks.lengths

module _ {s : Scheduler} {k : Str} {q : SequenceGroup} (v : Inv s) (a : Running s k q) where
  pub running-tokens : lookup k s.shared.blocks.lengths ≡ some (num_computed_tokens q)
  running-tokens = ground (arith, v.tokens k, a.found, a.status)

  pub grow_running : (n : ℕ) → Blocks.can_append s.shared.blocks k n ≡ true → Grown s k q n
  grow_running n fits =
      let m = s.shared.blocks in
      let (t, known, size) = Known-tokens m (pins s.shared) k v.pinned.manager running-tokens in
      record {
        fresh = take (blocks_needed_to_append m k n) m.free_list;
        manager = grown m k t (num_computed_tokens q) n (blocks_needed_to_append m k n);
        run = append_tokens_ok m (pins s.shared) k n v.pinned.manager known fits;
        pinned = record {
          manager = grown-IsValid m (pins s.shared) k n v.pinned.manager known size fits;
          distinct = v.pinned.distinct;
        };
        lengths = refl;
      }

  pub regrown-Inv :
      (n : ℕ) (p : SequenceGroup) (g : Grown s k q n) → Longer q n p → Inv (regrown s g.manager k p)
  regrown-Inv n p g l =
      let there = running-occ v a in
      let named = running-named v a in
      record {
        pinned = g.pinned;
        unlimited = v.unlimited;
        waits = λ j. ground (
          arith,
          v.waits j,
          a.found,
          a.status,
          l.status,
          lookup-insert k j p s.by_id,
          str_eq_iff k j,
        );
        runs = λ j. ground (
          arith,
          v.runs j,
          a.found,
          a.status,
          l.status,
          lookup-insert k j p s.by_id,
          str_eq_iff k j,
        );
        swaps = λ j. ground (
          arith,
          v.swaps j,
          a.found,
          a.status,
          l.status,
          lookup-insert k j p s.by_id,
          str_eq_iff k j,
        );
        tokens = λ j. rw g.lengths (
            ground (
              arith,
              v.tokens j,
              a.status,
              l.status,
              l.computed,
              lookup-insert k j p s.by_id,
              lookup-insert k j (num_computed_tokens q + n) s.shared.blocks.lengths,
            ));
        names = λ j. ground (
          arith,
          v.names j,
          named,
          l.seq_id,
          l.status,
          a.status,
          l.computed,
          ap (λ xs. length xs) l.prompt,
          lookup-insert k j p s.by_id,
          str_eq_iff k j,
        );
        capped = v.capped;
      }

  pub regrown-Running :
      (n : ℕ) (p : SequenceGroup) (g : Grown s k q n)
      → Longer q n p
      → Running (regrown s g.manager k p) k p
  regrown-Running n p g l = record {
    found = ground (arith, lookup-insert k k p s.by_id, str_eq_iff k k);
    status = l.status ∙ a.status;
  }
