-- ===== src/Engine/Scheduler/Requests.antt =====
-- The constructor and `add_request` of llm_serve/engine/scheduler.py.
use llm_serve.Prelude.{
  ℕ, ◌≤◌, ◌<◌, ◌≡◌, refl, ap, sym, Result, ◌⊎◌, true, false, inl, inr, Option, none, some, List, [],
  ◌∷◌, ◌++◌, length, length-append, Str, str_eq_iff, lookup, insert, lookup-insert, Option-cases,
  Bool-cases, is_some, leb, ok, err, Error, runtime_error, value_error, arith,
}
use llm_serve.Engine.Blocks
use llm_serve.Engine.Blocks.{BlockManager}
use llm_serve.Engine.Blocks.Invariant.{IsValid}
use llm_serve.Engine.Blocks.Start.{init-cases, init-IsValid}
use llm_serve.Engine.Prefix
use llm_serve.Engine.Prefix.{is_empty}
use llm_serve.Engine.Prefix.Find.{IsValid-ext}
use llm_serve.Engine.Scheduler.State.{PreemptionMode, SequenceGroup, Scheduler}
use llm_serve.Engine.Scheduler.Queues.{occ-append}
use llm_serve.Engine.Scheduler.Step.{
  Settings, mode_of, init, build, built, add_request, named, arrived, new_seq,
}
use llm_serve.Engine.Scheduler.Invariant.{Inv}

built-Inv :
    (c : Settings) (clock : ℕ → ℕ) (mode : PreemptionMode) (m : BlockManager)
    → IsValid m (λ b. 0)
    → ((k : Str) → lookup k m.lengths ≡ none)
    → Inv (built c clock mode m)
unfolding Prefix.init lookup
built-Inv c clock mode m v none_there = record {
  pinned = record { manager = IsValid-ext (λ b. refl) v; distinct = tt };
  unlimited = refl;
  waits = λ k. refl;
  runs = λ k. refl;
  swaps = λ k. refl;
  tokens = none_there;
  names = λ k. tt;
  capped = omega arith;
}

-- A scheduler that the constructor returns is valid.
pub init-Inv : (c : Settings) (clock : ℕ → ℕ) {s : Scheduler} → init c clock ≡ ok s → Inv s
unfolding init lookup
init-Inv c clock {s} h =
    split (mode_of c.preemption_mode) (Blocks.init c.block_size c.num_gpu_blocks c.watermark) refl h
  where
    split :
        (mode : Result PreemptionMode) (o : Result BlockManager)
        → Blocks.init c.block_size c.num_gpu_blocks c.watermark ≡ o
        → build c clock mode o ≡ ok s
        → Inv s
    split (err x) o e h = absurd (cc h)
    split (ok mode) (err x) e h = absurd (cc h)
    split (ok mode) (ok m) e h =
        let same : built c clock mode m ≡ s = ground (arith, h) in
        let parts = init-cases c.block_size c.num_gpu_blocks c.watermark e in
        rw (← same) (
          built-Inv c clock mode m (init-IsValid c.block_size c.num_gpu_blocks c.watermark e).0
            (λ k. ap (λ (b : BlockManager). lookup k b.lengths) (sym parts.3)))

-- The scheduler after the id and the arrival time were chosen.
abbrev prepared : Option Str → Option ℕ → Scheduler → Scheduler
prepared seq_id time s = (arrived time (named seq_id s).1).1

abbrev request : List ℕ → ℕ → Option Str → Option ℕ → Scheduler → SequenceGroup
request prompt n seq_id time s =
    new_seq (named seq_id s).0 prompt n (arrived time (named seq_id s).1).0

abbrev queued : Scheduler → SequenceGroup → Scheduler
queued s q = record s { waiting = s.waiting ++ q.seq_id ∷ []; by_id = insert q.seq_id q s.by_id }

queued-Inv :
    (s : Scheduler) (k : Str) (prompt : List ℕ) (n time : ℕ)
    → Inv s
    → 0 < length prompt
    → lookup k s.by_id ≡ none
    → Inv (queued s (new_seq k prompt n time))
queued-Inv s k prompt n time v some_prompt fresh =
    let q = new_seq k prompt n time in
    record {
      pinned = v.pinned;
      unlimited = v.unlimited;
      waits = λ j. ground (
        arith,
        v.waits j,
        fresh,
        lookup-insert k j q s.by_id,
        str_eq_iff k j,
        occ-append j s.waiting (k ∷ []),
      );
      runs = λ j. ground (arith, v.runs j, fresh, lookup-insert k j q s.by_id, str_eq_iff k j);
      swaps = λ j. ground (arith, v.swaps j, fresh, lookup-insert k j q s.by_id, str_eq_iff k j);
      tokens = λ j. ground (arith, v.tokens j, fresh, lookup-insert k j q s.by_id, str_eq_iff k j);
      names =
          λ j. ground (arith, v.names j, some_prompt, lookup-insert k j q s.by_id, str_eq_iff k j);
      capped = v.capped;
    }

-- The scheduler `t` after the request `q` was accepted by `s`, and after a request was refused.
pub record Accepted (s t : Scheduler) (q : SequenceGroup) : Type 0 where
  pub valid : Inv t
  pub fresh : lookup q.seq_id s.by_id ≡ none
  pub stored : t.by_id ≡ insert q.seq_id q s.by_id
  pub last : t.waiting ≡ s.waiting ++ q.seq_id ∷ []
  pub bounded : length t.waiting ≤ s.max_waiting

pub record Refused (s t : Scheduler) : Type 0 where
  pub valid : Inv t
  pub same_waiting : t.waiting ≡ s.waiting
  pub same_running : t.running ≡ s.running
  pub same_swapped : t.swapped ≡ s.swapped
  pub same_by_id : t.by_id ≡ s.by_id
  pub same_shared : t.shared ≡ s.shared
  pub same_limit : t.max_waiting ≡ s.max_waiting

kept :
    (s : Scheduler)
    → Inv s
    → (next readings : ℕ) → Refused s (record s { next_id = next; readings = readings })
kept s v next readings = record {
  valid = record {
    pinned = v.pinned;
    unlimited = v.unlimited;
    waits = v.waits;
    runs = v.runs;
    swaps = v.swaps;
    tokens = v.tokens;
    names = v.names;
    capped = v.capped;
  };
  same_waiting = refl;
  same_running = refl;
  same_swapped = refl;
  same_by_id = refl;
  same_shared = refl;
  same_limit = refl;
}

prepared-Refused :
    (seq_id : Option Str) (time : Option ℕ) (s : Scheduler)
    → Inv s
    → Refused s (prepared seq_id time s)
prepared-Refused none none s v = kept s v _ _
prepared-Refused none (some t) s v = kept s v _ _
prepared-Refused (some []) none s v = kept s v _ _
prepared-Refused (some []) (some t) s v = kept s v _ _
prepared-Refused (some (c ∷ k)) none s v = kept s v _ _
prepared-Refused (some (c ∷ k)) (some t) s v = kept s v _ _

empty-nil : (xs : List ℕ) → is_empty xs ≡ true → xs ≡ []
empty-nil [] h = refl
empty-nil (x ∷ xs) h = absurd (cc h)

nonempty-length : (xs : List ℕ) → is_empty xs ≡ false → 0 < length xs
nonempty-length [] h = absurd (cc h)
nonempty-length (x ∷ xs) h = omega arith

module _ (prompt : List ℕ) (n : ℕ) (seq_id : Option Str) (time : Option ℕ) (s : Scheduler) where
  -- Why `add_request` refuses.
  abbrev pub Reason : Error → Type 0
  Reason runtime_error = s.max_waiting ≤ length s.waiting
  Reason value_error = (prompt ≡ []) ⊎ (is_some (lookup (named seq_id s).0 s.by_id) ≡ true)
  Reason _ = ⊥

  -- The request is accepted, or refused for a reason.
  abbrev pub Requests : Type 0
  Requests =
      ((q : SequenceGroup) × (t : Scheduler) × (add_request prompt n seq_id time s ≡ (ok q, t))
        × Accepted s t q)
      ⊎ ((e : Error) × (t : Scheduler) × (add_request prompt n seq_id time s ≡ (err e, t))
          × Reason e
          × Refused s t)

  -- On a scheduler that meets the invariant `add_request` either accepts the request, as the last
  -- of the waiting queue under an id that was not in use, with at most `max_waiting` requests
  -- waiting then; or it raises `RuntimeError` because the queue is full, or `ValueError` because
  -- the prompt is empty or the id is in use, and changes no queue, no sequence, no cache and no
  -- block. The invariant holds after it.
  pub add_request-cases : Inv s → Requests
  unfolding add_request
  add_request-cases v = elim (Bool-cases (leb s.max_waiting (length s.waiting))) [
    | inl full ↦
        inr (runtime_error, s, rw full refl, ground (arith, full), kept s v s.next_id s.readings)
    | inr room ↦ elim (Bool-cases (is_empty prompt)) [
      | inl empty ↦ inr (
        value_error,
        s,
        rw (room, empty) refl,
        inl (empty-nil prompt empty),
        kept s v s.next_id s.readings,
      )
      | inr some_prompt ↦
          let k = (named seq_id s).0 in
          let p = prepared seq_id time s in
          let r = prepared-Refused seq_id time s v in
          elim (Option-cases (lookup k s.by_id)) [
            | inr (q, e) ↦
                inr
                  (value_error, p, rw (room, some_prompt, r.same_by_id, e) refl, inr (rw e refl), r)
            | inl e ↦
                let q = request prompt n seq_id time s in
                inl (
                  q,
                  queued p q,
                  rw (room, some_prompt, r.same_by_id, e) refl,
                  record {
                    valid =
                        queued-Inv p k prompt n _ r.valid (nonempty-length prompt some_prompt)
                          (rw r.same_by_id e);
                    fresh = e;
                    stored = rw r.same_by_id refl;
                    last = rw r.same_waiting refl;
                    bounded =
                        rw r.same_waiting (ground (arith, room, length-append s.waiting (k ∷ [])));
                  },
                )
          ]
    ]
  ]

  pub add_request-Inv : Inv s → Inv (add_request prompt n seq_id time s).1
  add_request-Inv v = elim (add_request-cases v) [
    | inl (q, t, e, a) ↦ rw e a.valid
    | inr (x, t, e, h, r) ↦ rw e r.valid
  ]
