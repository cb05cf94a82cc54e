-- ===== src/Engine/Scheduler/Admits.antt =====
-- The second loop of `_schedule_prefills` in llm_serve/engine/scheduler.py: one admission.
use llm_serve.Prelude.{
  ℕ, ◌+◌, ◌*◌, ◌<◌, ◌≡◌, refl, Bool, true, not, inl, inr, Option, some, List, [], ◌∷◌, length,
  count, Str, str_eq_iff, str_eq_refl, ◌++◌, ◌∙◌, lookup, lookup-insert, arith, Option-cases, ltb,
  if◌then◌else◌, Exec, pure, ◌>>=◌, Runs, Runs-here, Runs-jump, Runs-bind, Runs-if,
}
use llm_serve.Engine.Blocks.Alloc.{CanAllocate, Owned, allocate_ok}
use llm_serve.Engine.Prefix.{PrefixMatch, num_cached_blocks}
use llm_serve.Engine.Prefix.Find.{pins}
use llm_serve.Engine.Scheduler.State.{
  SeqStatus, SequenceGroup, Batch, ScheduledPrefill, prompt_len, prefill_done, on_sched,
}
use llm_serve.Engine.Scheduler.Lifecycle.{publish_prompt}
use llm_serve.Engine.Scheduler.Prefill.{add_prefill, admit, start_seq}
use llm_serve.Engine.Scheduler.Invariant.{Inv, Moves, Moves-trans, prefilled-append}
use llm_serve.Engine.Scheduler.Preempts.{known-insert}
use llm_serve.Engine.Scheduler.Finishes.{publish_prompt_lem, with_shared}
use llm_serve.Engine.Scheduler.Joins.{Idle, Started, joined, joined-Inv, CanAllocate-part}
use llm_serve.Engine.Scheduler.Searches.{Granted, Reshared-Moves}

-- The head of the waiting queue, in a state with a free seat.
pub record Head (k : Str) (ks : List Str) (q : SequenceGroup) (r : Batch) : Type 0 where
  pub valid : Inv r.sched
  pub queue : r.sched.waiting ≡ k ∷ ks
  pub found : lookup k r.sched.by_id ≡ some q
  pub seat : ltb (length r.sched.running) r.sched.max_num_seqs ≡ true

-- The cached prefix that it shares.
pub record Shares (q : SequenceGroup) (m : PrefixMatch) (r : Batch) : Type 0 where
  pub cached : m.num_cached_tokens ≡ length m.block_ids * r.sched.shared.blocks.block_size
  pub owned : (b : ℕ) → 0 < count b m.block_ids → 0 < pins r.sched.shared b
  pub short : 0 < prompt_len q → m.num_cached_tokens < prompt_len q

-- The sequence as it starts to run, and the batch then.
abbrev begun : SequenceGroup → PrefixMatch → ℕ → Option ℕ → SequenceGroup
begun q m chunk time = record q {
  num_cached_tokens = m.num_cached_tokens;
  num_prefilled = m.num_cached_tokens + chunk;
  status = SeqStatus.running;
  first_scheduled_time = time;
}

abbrev slice_of : Str → SequenceGroup → PrefixMatch → ℕ → ScheduledPrefill
slice_of k p m chunk = record {
  seq_id = k;
  num_tokens = chunk;
  is_chunk = not (prefill_done p);
  cached_tokens = m.num_cached_tokens;
}

abbrev after_begin : Batch → Str → List Str → SequenceGroup → PrefixMatch → ℕ → Option ℕ → ℕ → Batch
after_begin r k ks q m chunk time readings =
    let p = begun q m chunk time in
    record {
      sched =
          record (joined r.sched k p (m.num_cached_tokens + chunk) m.block_ids ks r.sched.swapped) {
            total_prompt_tokens = r.sched.total_prompt_tokens + chunk;
            readings = readings;
          };
      out = add_prefill (slice_of k p m chunk) r.out;
    }

module _ (k : Str) (ks : List Str) (q : SequenceGroup) (r : Batch) (h : Head k ks q r)
    (m : PrefixMatch) (c : Shares q m r) (chunk : ℕ) {budget : ℕ}
    (g : Granted r.sched q m budget chunk) where
  waiting-status : q.status ≡ SeqStatus.waiting
  waiting-status = ground (arith, h.valid.waits k, h.queue, h.found, str_eq_iff k k)

  waiting-named : (0 < prompt_len q) × (q.num_generated ≡ 0)
  waiting-named = ground (arith, h.valid.names k, waiting-status, h.found)

  waiting-Idle : Idle r.sched k q
  waiting-Idle = record { found = h.found; idle = rw waiting-status refl }

  waiting-CanAllocate :
      CanAllocate r.sched.shared.blocks k (m.num_cached_tokens + chunk) m.block_ids
  unfolding num_cached_blocks
  waiting-CanAllocate =
      let named = waiting-named in
      CanAllocate-part h.valid waiting-Idle (m.num_cached_tokens + chunk) (prompt_len q) m.block_ids
        g.room (omega (arith, c.cached)) (omega (arith, g.in_prompt, c.short named.0))

  waiting-Owned :
      Owned r.sched.shared.blocks (pins r.sched.shared) k (m.num_cached_tokens + chunk) m.block_ids
  waiting-Owned = λ b e. omega (arith, c.owned b e)

  after_begin-Moves :
      (time : Option ℕ) (x : ℕ) → Moves chunk r (after_begin r k ks q m chunk time x)
  after_begin-Moves time x =
      let s = r.sched in
      let p = begun q m chunk time in
      let status = waiting-status in
      let named = waiting-named in
      let start : Started q (m.num_cached_tokens + chunk) p = record {
        seq_id = refl;
        status = refl;
        prompt = refl;
        computed = omega (arith, named.1);
        begun = omega (arith, g.some_tokens);
      } in
      let v =
        joined-Inv h.valid waiting-Idle p (m.num_cached_tokens + chunk) m.block_ids ks s.swapped
          start waiting-Owned waiting-CanAllocate (ground (arith, h.seat))
          (λ j. ground (
            arith,
            h.valid.waits j,
            h.queue,
            h.found,
            status,
            lookup-insert k j p s.by_id,
            str_eq_iff k j,
          ))
          (λ j. ground (
            arith,
            h.valid.swaps j,
            h.found,
            status,
            lookup-insert k j p s.by_id,
            str_eq_iff k j,
          )) in
      record {
        valid = record {
          pinned = v.pinned;
          unlimited = v.unlimited;
          waits = v.waits;
          runs = v.runs;
          swaps = v.swaps;
          tokens = v.tokens;
          names = v.names;
          capped = v.capped;
        };
        known = λ j e. known-insert k j p s.by_id e;
        limit = refl;
        keeps = λ i b e. e;
        tokens = omega (arith, prefilled-append r.out.prefills (slice_of k p m chunk ∷ []));
      }

  module _ (digest : Str → Str) where
    -- The sequence runs, behind those that ran, and the batch has its slice of the prompt.
    pub record Runner (t : Batch) : Type 0 where
      pub seq : SequenceGroup
      pub found : lookup k t.sched.by_id ≡ some seq
      pub status : seq.status ≡ SeqStatus.running
      pub prefilled_to : seq.num_prefilled ≡ m.num_cached_tokens + chunk
      pub last_running : t.sched.running ≡ r.sched.running ++ k ∷ []
      pub sliced : t.out.prefills ≡ r.out.prefills ++ slice_of k seq m chunk ∷ []
      pub same_decodes : t.out.decodes ≡ r.out.decodes

    -- What an admission does.
    abbrev pub Admitted : Bool → Batch → Type 0
    Admitted granted t = (granted ≡ true) × Moves chunk r t × (t.sched.waiting ≡ ks) × Runner t

    -- The last test of the round.
    abbrev published : SequenceGroup → Exec Batch Bool
    published p = (if prefill_done p then publish_prompt digest k p else pure tt) >>= λ _. pure true

    published_lem :
        (time : Option ℕ) (x : ℕ)
        → Runs
            (published (begun q m chunk time))
            (after_begin r k ks q m chunk time x)
            (λ b t. Admitted b t)
    published_lem time x =
        let p = begun q m chunk time in
        let t = after_begin r k ks q m chunk time x in
        let moved = after_begin-Moves time x in
        let here : lookup k t.sched.by_id ≡ some p =
          lookup-insert k k p r.sched.by_id ∙ rw (str_eq_refl k) refl in
        Runs-bind
          (Runs-if (prefill_done p) {Q = λ _ u. Moves chunk r u × (u.sched.waiting ≡ ks) × Runner u}
            (λ _.
              let (after, run, reshared) =
                publish_prompt_lem digest k p t moved.valid.pinned moved.valid.unlimited in
              record {
                value = tt;
                final = with_shared t after;
                run = run;
                post = (
                  Moves-trans (omega arith) moved (Reshared-Moves t after moved.valid reshared),
                  refl,
                  record {
                    seq = p;
                    found = here;
                    status = refl;
                    prefilled_to = refl;
                    last_running = refl;
                    sliced = refl;
                    same_decodes = refl;
                  },
                );
              })
            (λ _. Runs-here tt t refl (
              moved,
              refl,
              record {
                seq = p;
                found = here;
                status = refl;
                prefilled_to = refl;
                last_running = refl;
                sliced = refl;
                same_decodes = refl;
              },
            )))
          (λ _ u f. Runs-here true u refl (refl, f.0, f.1, f.2))

    -- If the head of the waiting queue of a scheduler that meets the invariant passed the guards
    -- of the admission loop, with a cached prefix whose blocks are pinned and which is shorter
    -- than the prompt, then the pool grants its blocks: the handler of `BlockAllocationError` is
    -- not reached; the sequence leaves the waiting queue, joins the end of the running ones with
    -- the status RUNNING and its cached and new tokens prefilled; the batch gets its slice as one
    -- prefill and no decode; and the invariant holds.
    pub admit_lem :
        Runs
          (on_sched (λ s. record s { waiting = ks }) >>= λ _. admit digest k q m chunk)
          r
          (λ b t. Admitted b t)
    unfolding admit start_seq
    admit_lem =
        let granted =
          allocate_ok r.sched.shared.blocks (pins r.sched.shared) k (m.num_cached_tokens + chunk)
            m.block_ids h.valid.pinned.manager waiting-Owned waiting-CanAllocate in
        elim (Option-cases q.first_scheduled_time) [
          | inl e ↦
              let time = some (r.sched.clock r.sched.readings) in
              Runs-jump {n = published (begun q m chunk time)}
                {t = after_begin r k ks q m chunk time (r.sched.readings + 1)} (rw (granted, e))
                (published_lem time (r.sched.readings + 1))
          | inr (time, e) ↦
              Runs-jump {n = published (begun q m chunk (some time))}
                {t = after_begin r k ks q m chunk (some time) r.sched.readings} (rw (granted, e))
                (published_lem (some time) r.sched.readings)
        ]
