-- ===== src/Engine/Scheduler/Invariant.antt =====
-- The invariant of llm_serve/engine/scheduler.py: a sequence stands where its status says, and holds
-- blocks exactly while it runs.
use llm_serve.Prelude.{
  ℕ, ◌+◌, ◌≤◌, ◌<◌, ◌≡◌, ap, refl, ◌∙◌, true, Option, none, some, List, [], ◌∷◌, ◌++◌, length, Str,
  lookup, is_some, arith,
}
use llm_serve.Engine.Prefix.Find.{IsPinned}
use llm_serve.Engine.Prefix.Publish.{Keeps}
use llm_serve.Engine.Scheduler.State.{
  SeqStatus, SequenceGroup, Scheduler, Batch, SchedulerOutput, ScheduledPrefill, prompt_len,
  num_computed_tokens,
}
use llm_serve.Engine.Scheduler.Queues.{occ}

-- How often a sequence stands in each queue, by its status.
abbrev pub in_waiting : SeqStatus → ℕ
in_waiting SeqStatus.waiting = 1
in_waiting _ = 0

abbrev pub in_running : SeqStatus → ℕ
in_running SeqStatus.running = 1
in_running _ = 0

abbrev pub in_swapped : SeqStatus → ℕ
in_swapped SeqStatus.swapped = 1
in_swapped _ = 0

abbrev pub seat : (SeqStatus → ℕ) → Option SequenceGroup → ℕ
seat place none = 0
seat place (some q) = place q.status

-- The tokens that the block manager has for a sequence.
abbrev pub resident : SeqStatus → ℕ → Option ℕ
resident SeqStatus.running n = some n
resident _ n = none

abbrev pub seat_tokens : Option SequenceGroup → Option ℕ
seat_tokens none = none
seat_tokens (some q) = resident q.status (num_computed_tokens q)

-- The sequence has computed some tokens if it runs or is swapped out, and has generated none if it
-- waits.
abbrev pub HasBegun : SeqStatus → ℕ → ℕ → Type 0
HasBegun SeqStatus.running computed generated = 0 < computed
HasBegun SeqStatus.swapped computed generated = 0 < computed
HasBegun SeqStatus.waiting computed generated = generated ≡ 0
HasBegun _ computed generated = Unit

-- An entry of `by_id` stands under its own id, has a prompt, and computed what its status says.
abbrev pub IsNamed : Str → Option SequenceGroup → Type 0
IsNamed k none = Unit
IsNamed k (some q) =
    (q.seq_id ≡ k) × (0 < prompt_len q) × HasBegun q.status (num_computed_tokens q) q.num_generated

pub record Inv (s : Scheduler) : Type 0 where
  pub pinned : IsPinned s.shared
  pub unlimited : s.shared.cache.max_entries ≡ none
  pub waits : (k : Str) → occ k s.waiting ≡ seat in_waiting (lookup k s.by_id)
  pub runs : (k : Str) → occ k s.running ≡ seat in_running (lookup k s.by_id)
  pub swaps : (k : Str) → occ k s.swapped ≡ seat in_swapped (lookup k s.by_id)
  pub tokens : (k : Str) → lookup k s.shared.blocks.lengths ≡ seat_tokens (lookup k s.by_id)
  pub names : (k : Str) → IsNamed k (lookup k s.by_id)
  pub capped : length s.running ≤ s.max_num_seqs

-- The sequences of a list are known.
abbrev pub Known : List Str → Scheduler → Type 0
Known ks s = (k : Str) → 0 < occ k ks → is_some (lookup k s.by_id) ≡ true

-- The sequences in a queue are known.
seat-known :
    (place : SeqStatus → ℕ) (o : Option SequenceGroup) → 0 < seat place o → is_some o ≡ true
seat-known place none h = absurd (omega arith)
seat-known place (some q) h = refl

module _ {s : Scheduler} (v : Inv s) where
  pub running-Known : Known s.running s
  running-Known = λ k h. seat-known in_running (lookup k s.by_id) (omega (arith, v.runs k))

  pub waiting-Known : Known s.waiting s
  waiting-Known = λ k h. seat-known in_waiting (lookup k s.by_id) (omega (arith, v.waits k))

  pub swapped-Known : Known s.swapped s
  swapped-Known = λ k h. seat-known in_swapped (lookup k s.by_id) (omega (arith, v.swaps k))

-- The tokens of the prefills.
abbrev pub prefilled : List ScheduledPrefill → ℕ
prefilled [] = 0
prefilled (p ∷ ps) = p.num_tokens + prefilled ps

pub prefilled-append :
    (ps qs : List ScheduledPrefill) → prefilled (ps ++ qs) ≡ prefilled ps + prefilled qs
prefilled-append [] qs = omega arith
prefilled-append (p ∷ ps) qs = omega (arith, prefilled-append ps qs)

-- The tokens of a batch: one for each decode, and those of the prefills.
abbrev pub spent : SchedulerOutput → ℕ
spent out = length out.decodes + prefilled out.prefills

-- What the work of a step does: the invariant holds after it, no sequence is forgotten, the budget
-- is that of before, no cached block is dropped, and `n` tokens join the batch.
pub record Moves (n : ℕ) (r t : Batch) : Type 0 where
  pub valid : Inv t.sched
  pub known :
      (k : Str) → is_some (lookup k r.sched.by_id) ≡ true → is_some (lookup k t.sched.by_id) ≡ true
  pub limit : t.sched.max_num_batched_tokens ≡ r.sched.max_num_batched_tokens
  pub keeps : Keeps r.sched.shared.cache.entries t.sched.shared.cache.entries
  pub tokens : spent t.out ≡ spent r.out + n

pub Moves-refl : (r : Batch) → Inv r.sched → Moves 0 r r
Moves-refl r v = record {
  valid = v;
  known = λ k h. h;
  limit = refl;
  keeps = λ h b e. e;
  tokens = omega arith;
}

pub Moves-same : {n m : ℕ} {r t : Batch} → n ≡ m → Moves n r t → Moves m r t
Moves-same e f = record {
  valid = f.valid;
  known = f.known;
  limit = f.limit;
  keeps = f.keeps;
  tokens = omega (arith, f.tokens);
}

pub Moves-trans : {n m l : ℕ} {r t u : Batch} → n + m ≡ l → Moves n r t → Moves m t u → Moves l r u
Moves-trans e f g = record {
  valid = g.valid;
  known = λ k h. g.known k (f.known k h);
  limit = g.limit ∙ f.limit;
  keeps = λ h b p. g.keeps h b (f.keeps h b p);
  tokens = omega (arith, f.tokens, g.tokens);
}

-- No token joins the batch.
pub record SameTokens (r t : Batch) : Type 0 where
  pub decodes : t.out.decodes ≡ r.out.decodes
  pub prefills : t.out.prefills ≡ r.out.prefills

pub SameTokens-trans : {r t u : Batch} → SameTokens r t → SameTokens t u → SameTokens r u
SameTokens-trans a b = record {
  decodes = b.decodes ∙ a.decodes;
  prefills = b.prefills ∙ a.prefills;
}

-- Work that adds `n` decodes and no prefill.
pub record Decoding (n : ℕ) (r t : Batch) : Type 0 where
  pub moves : Moves n r t
  pub prefills : t.out.prefills ≡ r.out.prefills

pub Decoding-trans :
    {n m l : ℕ} {r t u : Batch} → n + m ≡ l → Decoding n r t → Decoding m t u → Decoding l r u
Decoding-trans e f g = record {
  moves = Moves-trans e f.moves g.moves;
  prefills = g.prefills ∙ f.prefills;
}

pub decodes-Decoding :
    {n : ℕ} {r t : Batch} → Decoding n r t → length t.out.decodes ≡ length r.out.decodes + n
decodes-Decoding d = omega (arith, d.moves.tokens, ap prefilled d.prefills)

-- Work that adds prefills of `n` tokens and no decode.
pub record Prefilling (n : ℕ) (r t : Batch) : Type 0 where
  pub moves : Moves n r t
  pub decodes : t.out.decodes ≡ r.out.decodes

pub Prefilling-trans :
    {n m l : ℕ} {r t u : Batch} → n + m ≡ l → Prefilling n r t → Prefilling m t u → Prefilling l r u
Prefilling-trans e f g = record {
  moves = Moves-trans e f.moves g.moves;
  decodes = g.decodes ∙ f.decodes;
}

pub prefills-Prefilling :
    {n : ℕ} {r t : Batch}
    → Prefilling n r t
    → prefilled t.out.prefills ≡ prefilled r.out.prefills + n
prefills-Prefilling d = omega (arith, d.moves.tokens, ap length d.decodes)
