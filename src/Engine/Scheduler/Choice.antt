-- ===== src/Engine/Scheduler/Choice.antt =====
-- The choice of `_schedule_decodes` in llm_serve/engine/scheduler.py, against all running sequences.
use llm_serve.Prelude.{
  ◌<◌, ◌≡◌, refl, ap, ◌∙◌, sym, false, not, ◌&&◌, inl, inr, some, List, [], ◌∷◌, Str, str_eq,
  str_eq_iff, Dict, lookup, Bool-cases, Option-cases, arith,
}
use mathlib.Core.Option.{some-injective}
use llm_serve.Engine.Scheduler.State.{SequenceGroup, Scheduler, is_finished}
use llm_serve.Engine.Scheduler.Queues.{occ}
use llm_serve.Engine.Scheduler.Lifecycle.{seqs_of, candidates}
use llm_serve.Engine.Scheduler.Decode.{choose_victim}
use llm_serve.Engine.Scheduler.Invariant.{Inv}
use llm_serve.Engine.Scheduler.Preempts.{running-occ}
use llm_serve.Engine.Scheduler.Victims.{
  NotNewer, IsNewest, IsRunning, choose_victim-IsRunning, choose_victim-IsNewest,
}

IsNewest-rest :
    (k : Str) (best p : SequenceGroup) (qs : List SequenceGroup)
    → IsNewest best (candidates k (p ∷ qs))
    → IsNewest best (candidates k qs)
unfolding candidates
IsNewest-rest k best p qs h = elim (Bool-cases (not (str_eq p.seq_id k) && not (is_finished p))) [
  | inl e ↦ (rw (candidates, e) at h).1
  | inr e ↦ rw (candidates, e) at h
]

-- A candidate is not newer than the newest one.
module _ (k : Str) (d : Dict SequenceGroup) (best c : SequenceGroup)
    (found : lookup c.seq_id d ≡ some c) (goes_on : is_finished c ≡ false)
    (other : str_eq c.seq_id k ≡ false) where
  candidate-NotNewer :
      (queue : List Str)
      → 0 < occ c.seq_id queue
      → IsNewest best (candidates k (seqs_of d queue))
      → NotNewer c best
  unfolding seqs_of candidates
  candidate-NotNewer [] h newest = absurd (omega arith)
  candidate-NotNewer (j ∷ queue) h newest = elim (Bool-cases (str_eq j c.seq_id)) [
    | inl e ↦
        let here : lookup j d ≡ some c =
          ap (λ i. lookup i d) ((str_eq_iff j c.seq_id).0 e) ∙ found in
        (rw (seqs_of, here, candidates, other, goes_on) at newest).0
    | inr e ↦ elim (Option-cases (lookup j d)) [
      | inl f ↦ candidate-NotNewer queue (ground (arith, h, e)) (rw (seqs_of, f) at newest)
      | inr (p, f) ↦
          candidate-NotNewer queue (ground (arith, h, e))
            (IsNewest-rest k best p (seqs_of d queue) (rw (seqs_of, f) at newest))
    ]
  ]

module _ {s : Scheduler} (v : Inv s) where
  -- In a scheduler that meets the invariant, the sequence that gives up its blocks so that the
  -- running sequence `q` may decode runs itself, and no running sequence is newer: none has a
  -- greater priority key, which is the arrival time and then the id.
  pub choose_victim-NotNewer :
      (q c : SequenceGroup)
      → IsRunning s q
      → IsRunning s c
      → IsRunning s (choose_victim q.seq_id q s) × NotNewer c (choose_victim q.seq_id q s)
  choose_victim-NotNewer q c a b =
      let newest = choose_victim-IsNewest q.seq_id q s in
      let there = running-occ v b in
      (
        choose_victim-IsRunning v q.seq_id q a,
        elim (Bool-cases (str_eq c.seq_id q.seq_id)) [
          | inl e ↦
              let same : q ≡ c = some-injective _ _ (
                sym a.found
                ∙ ap (λ i. lookup i s.by_id) (sym ((str_eq_iff c.seq_id q.seq_id).0 e))
                ∙ b.found) in
              rw (← same) newest.0
          | inr e ↦
              candidate-NotNewer q.seq_id s.by_id (choose_victim q.seq_id q s) c b.found
                (rw b.status refl) e s.running (omega arith) newest.1
        ],
      )
