-- ===== src/Engine/Scheduler/Aborts.antt =====
-- `abort` of llm_serve/engine/scheduler.py, on every branch.
use llm_serve.Prelude.{
  ℕ, ◌+◌, ◌≤◌, ◌≡◌, refl, ◌⊎◌, true, false, inl, inr, none, some, List, length, Str, str_eq,
  str_eq_iff, str_eq_refl, ◌∙◌, lookup, insert, lookup-insert, lookup-remove, Option-cases,
  Bool-cases, ok, arith, if◌then◌else◌,
}
use llm_serve.Engine.Blocks.Release.{without, free_lem}
use llm_serve.Engine.Prefix.Find.{IsPinned, pins}
use llm_serve.Engine.Scheduler.State.{SeqStatus, SequenceGroup, Scheduler, is_finished}
use llm_serve.Engine.Scheduler.Queues.{occ, is_in-occ, occ-erase, length-erase}
use llm_serve.Engine.Scheduler.Lifecycle.{drop_from, abort}
use llm_serve.Engine.Scheduler.Invariant.{Inv}

occ-drop_from :
    (j k : Str) (q : List Str)
    → occ k q ≤ 1
    → occ j (drop_from k q) ≡ (if str_eq k j then 0 else occ j q)
unfolding drop_from
occ-drop_from j k q h = elim (Bool-cases (str_eq k j)) [
  | inl e ↦
      rw (e, ← (str_eq_iff k j).0 e)
        (ground (arith, is_in-occ k q, occ-erase k k q, str_eq_iff k k))
  | inr e ↦ rw e (ground (arith, is_in-occ k q, occ-erase j k q))
]

length-drop_from : (k : Str) (q : List Str) → length (drop_from k q) ≤ length q
unfolding drop_from
length-drop_from k q = ground (arith, is_in-occ k q, length-erase k q)

abbrev aborted_seq : SequenceGroup → ℕ → SequenceGroup
aborted_seq q now = record q { status = SeqStatus.aborted; finish_time = some now }

-- The scheduler after `abort` of a sequence that had not ended.
abbrev aborted : Scheduler → Str → SequenceGroup → List ℕ → List ℕ → Scheduler
aborted s k q f rc = record s {
  shared = record (s.shared) { blocks = without s.shared.blocks k f rc };
  waiting = drop_from k s.waiting;
  running = drop_from k s.running;
  swapped = drop_from k s.swapped;
  by_id = insert k (aborted_seq q (s.clock s.readings)) s.by_id;
  readings = s.readings + 1;
}

-- The id is unknown, or its sequence ended.
abbrev pub Settled : Str → Scheduler → Type 0
Settled k s =
    (lookup k s.by_id ≡ none)
    ⊎ ((q : SequenceGroup) × (lookup k s.by_id ≡ some q) × (is_finished q ≡ true))

-- The sequence is in no queue and has no blocks.
pub record IsGone (k : Str) (t : Scheduler) : Type 0 where
  pub waits : occ k t.waiting ≡ 0
  pub runs : occ k t.running ≡ 0
  pub swaps : occ k t.swapped ≡ 0
  pub blocks : lookup k t.shared.blocks.tables ≡ none

-- The sequence had not ended, and it left.
pub record Left (k : Str) (s : Scheduler) : Type 0 where
  pub seq : SequenceGroup
  pub found : lookup k s.by_id ≡ some seq
  pub unfinished : is_finished seq ≡ false
  pub after : Scheduler
  pub run : abort k s ≡ (ok true, after)
  pub valid : Inv after
  pub gone : IsGone k after
  pub marked :
      lookup k after.by_id
      ≡ some (record seq { status = SeqStatus.aborted; finish_time = some (s.clock s.readings) })

-- Nothing to abort, or the sequence left.
abbrev pub Aborts : Str → Scheduler → Type 0
Aborts k s = (Settled k s × (abort k s ≡ (ok false, s))) ⊎ Left k s

module _ (k : Str) (s : Scheduler) (v : Inv s) where
  aborted-Inv :
      (q : SequenceGroup) (f rc : List ℕ)
      → lookup k s.by_id ≡ some q
      → IsPinned (aborted s k q f rc).shared
      → Inv (aborted s k q f rc)
  aborted-Inv q f rc e p =
      let q' = aborted_seq q (s.clock s.readings) in
      record {
        pinned = p;
        unlimited = v.unlimited;
        waits = λ j. ground (
          arith,
          v.waits j,
          v.waits k,
          e,
          occ-drop_from j k s.waiting,
          lookup-insert k j q' s.by_id,
        );
        runs = λ j. ground (
          arith,
          v.runs j,
          v.runs k,
          e,
          occ-drop_from j k s.running,
          lookup-insert k j q' s.by_id,
        );
        swaps = λ j. ground (
          arith,
          v.swaps j,
          v.swaps k,
          e,
          occ-drop_from j k s.swapped,
          lookup-insert k j q' s.by_id,
        );
        tokens = λ j. ground (
          arith,
          v.tokens j,
          lookup-insert k j q' s.by_id,
          lookup-remove k j s.shared.blocks.lengths,
        );
        names = λ j.
            ground (arith, v.names j, v.names k, e, lookup-insert k j q' s.by_id, str_eq_iff k j);
        capped = omega (arith, v.capped, length-drop_from k s.running);
      }

  -- On a scheduler that meets the invariant `abort` returns False and changes nothing if the id is
  -- unknown or its sequence ended; otherwise the sequence had not ended, it returns True, the
  -- sequence is marked aborted at the next clock reading, it is in no queue and has no block
  -- table, and the invariant holds.
  pub abort-cases : Aborts k s
  unfolding abort
  abort-cases = elim (Option-cases (lookup k s.by_id)) [
    | inl e ↦ inl (inl e, rw e refl)
    | inr (q, e) ↦ elim (Bool-cases (is_finished q)) [
      | inl f ↦ inl (inr (q, e, f), rw (e, f) refl)
      | inr f ↦
          let (freed, fl, rc, run, valid, size) =
            free_lem s.shared.blocks (pins s.shared) k v.pinned.manager in
          inr (record {
            seq = q;
            found = e;
            unfinished = f;
            after = aborted s k q fl rc;
            run = rw (e, f, run) refl;
            valid =
                aborted-Inv q fl rc e (record { manager = valid; distinct = v.pinned.distinct });
            marked =
                lookup-insert k k (aborted_seq q (s.clock s.readings)) s.by_id
                ∙ rw (str_eq_refl k) refl;
            gone = record {
              waits = ground (arith, v.waits k, e, occ-drop_from k k s.waiting, str_eq_iff k k);
              runs = ground (arith, v.runs k, e, occ-drop_from k k s.running, str_eq_iff k k);
              swaps = ground (arith, v.swaps k, e, occ-drop_from k k s.swapped, str_eq_iff k k);
              blocks = ground (arith, lookup-remove k k s.shared.blocks.tables, str_eq_iff k k);
            };
          })
    ]
  ]

  pub abort-Inv : Inv (abort k s).1
  abort-Inv = elim abort-cases [ inl (h, e) ↦ rw e v | inr l ↦ rw (l.run) l.valid ]
