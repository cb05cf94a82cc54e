-- ===== src/Engine/Scheduler/Searches.antt =====
-- The guards of the second loop of `_schedule_prefills` in llm_serve/engine/scheduler.py: the search
-- in the prefix cache, and what the tests of the loop leave.
use llm_serve.Prelude.{
  ℕ, ◌-◌, ◌*◌, ◌≤◌, ◌<◌, ◌≡◌, refl, ap, ◌∙◌, sym, true, inl, inr, some, List, [], length, count,
  Str, lookup, ok, arith, Bool-cases,
}
use llm_serve.Engine.Blocks
use llm_serve.Engine.Prefix
use llm_serve.Engine.Prefix.{Shared, PrefixMatch, num_cached_blocks}
use llm_serve.Engine.Prefix.Find.{
  IsPinned, IsValid-ext, pins, find_lem, found_match, searched, offered-pinned, offered-lt,
}
use llm_serve.Engine.Scheduler.State.{SequenceGroup, Scheduler, Batch, prompt_len}
use llm_serve.Engine.Scheduler.Prefill.{admission}
use llm_serve.Engine.Scheduler.Invariant.{Inv, Moves}
use llm_serve.Engine.Scheduler.Finishes.{Reshared, Reshared-refl, with_shared}

-- What a search answers: pinned blocks, full of tokens of the prompt, and not all of it.
pub record Search (digest : Str → Str) (tokens : List ℕ) (s : Shared) : Type 0 where
  pub found : PrefixMatch
  pub after : Shared
  pub run : Prefix.find digest tokens s ≡ (ok found, after)
  pub reshared : Reshared s after
  pub blocks : after.blocks ≡ s.blocks
  pub cached : found.num_cached_tokens ≡ length found.block_ids * s.blocks.block_size
  pub owned : (b : ℕ) → 0 < count b found.block_ids → 0 < pins after b
  pub short : 0 < length tokens → found.num_cached_tokens < length tokens

-- On a shared state where the cache entries are the pins of a valid block manager, `lookup` raises
-- nothing, enabled or not: the blocks that it returns are pinned, the cached tokens are those of
-- full blocks and fewer than those of a prompt that is not empty, and no entry is dropped.
pub find-Search :
    (digest : Str → Str) (tokens : List ℕ) (s : Shared) → IsPinned s → Search digest tokens s
find-Search digest tokens s p = elim (Bool-cases s.cache.enabled) [
  | inr off ↦ record {
    found = record { block_ids = []; num_cached_tokens = 0; num_prompt_tokens = length tokens };
    after = s;
    run = unfold Prefix.find in rw off refl;
    reshared = Reshared-refl s p;
    blocks = refl;
    cached = omega arith;
    owned = λ b h. absurd (omega arith);
    short = λ h. h;
  }
  | inl on ↦
      let (run, order) = find_lem digest s tokens p on in
      record {
        found = found_match digest s tokens;
        after = record s { cache = searched digest s tokens };
        run = run;
        reshared = record {
          pinned = record {
            manager = IsValid-ext (λ b. sym (order.counts b)) p.manager;
            distinct = order.distinct;
          };
          lengths = refl;
          unlimited = refl;
          keeps = λ h b e. order.lookups h ∙ e;
        };
        blocks = refl;
        cached = refl;
        owned = λ b h. omega (arith, order.counts b, offered-pinned digest s tokens p b h);
        short = offered-lt digest s tokens p;
      }
]

-- Another shared state of the same sequences keeps the invariant.
pub Reshared-Moves :
    (r : Batch) (t : Shared) → Inv r.sched → Reshared r.sched.shared t → Moves 0 r (with_shared r t)
Reshared-Moves r t v e = record {
  valid = record {
    pinned = e.pinned;
    unlimited = e.unlimited ∙ v.unlimited;
    waits = v.waits;
    runs = v.runs;
    swaps = v.swaps;
    tokens = λ k. ap (λ d. lookup k d) e.lengths ∙ v.tokens k;
    names = v.names;
    capped = v.capped;
  };
  known = λ k h. h;
  limit = refl;
  keeps = e.keeps;
  tokens = omega arith;
}

-- What the guards grant: some tokens within the budget and the prompt, and room for the whole
-- prompt.
pub record Granted (s : Scheduler) (q : SequenceGroup) (m : PrefixMatch) (budget chunk : ℕ)
    : Type 0 where
  pub some_tokens : 0 < chunk
  pub affordable : chunk ≤ budget
  pub in_prompt : chunk ≤ prompt_len q - m.num_cached_tokens
  pub room : Blocks.can_allocate s.shared.blocks (prompt_len q) (num_cached_blocks m) ≡ true

pub admission-Granted :
    (s : Scheduler) (q : SequenceGroup) (m : PrefixMatch) (budget chunk : ℕ)
    → admission s q m budget ≡ some chunk
    → Granted s q m budget chunk
unfolding admission
admission-Granted s q m budget chunk h = record {
  some_tokens = grind arith;
  affordable = grind arith;
  in_prompt = grind arith;
  room = ground arith;
}
