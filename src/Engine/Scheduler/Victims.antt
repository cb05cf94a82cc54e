-- ===== src/Engine/Scheduler/Victims.antt =====
-- Proofs about `_pick_preemption_victim` of llm_serve/engine/scheduler.py.
use llm_serve.Prelude.{
  ◌<◌, ◌≡◌, refl, ap, ◌∙◌, sym, true, false, not, ◌&&◌, none, some, List, [], ◌∷◌, All, Str, str_eq,
  str_eq_refl, str_lt_irrefl, str_lt_trans_not, str_lt_asym, lookup, Bool-cases, Option-cases, inl,
  inr, if◌then◌else◌, arith,
}
use mathlib.Core.Option.{some-injective}
use mathlib.Core.Path.{subst}
use llm_serve.Engine.Scheduler.State.{SequenceGroup, Scheduler, is_finished, priority_lt}
use llm_serve.Engine.Scheduler.Queues.{occ}
use llm_serve.Engine.Scheduler.Lifecycle.{
  seqs_of, candidates, newest, newest_from, pick_preemption_victim,
}
use llm_serve.Engine.Scheduler.Decode.{choose_victim}
use llm_serve.Engine.Scheduler.Invariant.{Inv}
use llm_serve.Engine.Scheduler.Preempts.{Running}

-- `a` is not newer than `b`.
abbrev pub NotNewer : SequenceGroup → SequenceGroup → Type 0
NotNewer a b = priority_lt b a ≡ false

priority_refl : (a : SequenceGroup) → NotNewer a a
unfolding priority_lt
priority_refl a = ground (arith, str_lt_irrefl a.seq_id)

priority_asym : (a b : SequenceGroup) → priority_lt a b ≡ true → NotNewer a b
unfolding priority_lt
priority_asym a b h = ground (
  arith,
  str_lt_trans_not a.seq_id b.seq_id a.seq_id,
  str_lt_irrefl a.seq_id,
  str_lt_asym a.seq_id b.seq_id,
)

priority_trans : (a b c : SequenceGroup) → NotNewer a b → NotNewer b c → NotNewer a c
unfolding priority_lt
priority_trans a b c h k = ground (arith, str_lt_trans_not a.seq_id b.seq_id c.seq_id)

module _ (P : SequenceGroup → Type 0) where
  candidates-All : (k : Str) (qs : List SequenceGroup) → All P qs → All P (candidates k qs)
  unfolding candidates
  candidates-All k [] h = tt
  candidates-All k (q ∷ qs) h = elim (Bool-cases (not (str_eq q.seq_id k) && not (is_finished q))) [
    | inl e ↦ rw e (h.0, candidates-All k qs h.1)
    | inr e ↦ rw e (candidates-All k qs h.1)
  ]

  newest_from-All :
      (q : SequenceGroup) (qs : List SequenceGroup) → P q → All P qs → P (newest_from q qs)
  unfolding newest_from
  newest_from-All q [] p h = p
  newest_from-All q (c ∷ qs) p h = elim (Bool-cases (priority_lt q c)) [
    | inl e ↦ rw e (newest_from-All c qs h.0 h.1)
    | inr e ↦ rw e (newest_from-All q qs p h.1)
  ]

  newest-All : (qs : List SequenceGroup) {q : SequenceGroup} → All P qs → newest qs ≡ some q → P q
  unfolding newest
  newest-All [] h e = cc
  newest-All (c ∷ qs) h e = subst P (some-injective _ _ e) (newest_from-All c qs h.0 h.1)

-- The newest of a list is not older than any of its members.
abbrev pub IsNewest : SequenceGroup → List SequenceGroup → Type 0
IsNewest b qs = All (λ c. NotNewer c b) qs

newest_from-step :
    (q c : SequenceGroup) (qs : List SequenceGroup)
    → newest_from q (c ∷ qs) ≡ newest_from (if priority_lt q c then c else q) qs
unfolding newest_from
newest_from-step q c qs = refl

newest_from-IsNewest :
    (q : SequenceGroup) (qs : List SequenceGroup) → IsNewest (newest_from q qs) (q ∷ qs)
newest_from-IsNewest q [] = unfold newest_from in (priority_refl q, tt)
newest_from-IsNewest q (c ∷ qs) = elim (Bool-cases (priority_lt q c)) [
  | inl e ↦
      let (first, rest) = newest_from-IsNewest c qs in
      let next : newest_from q (c ∷ qs) ≡ newest_from c qs = newest_from-step q c qs ∙ rw e in
      subst (λ z. IsNewest z (q ∷ c ∷ qs)) (sym next)
        (priority_trans q c (newest_from c qs) (priority_asym q c e) first, (first, rest))
  | inr e ↦
      let (first, rest) = newest_from-IsNewest q qs in
      let next : newest_from q (c ∷ qs) ≡ newest_from q qs = newest_from-step q c qs ∙ rw e in
      subst (λ z. IsNewest z (q ∷ c ∷ qs)) (sym next)
        (first, (priority_trans c q (newest_from q qs) e first, rest))
]

newest-IsNewest : (qs : List SequenceGroup) {q : SequenceGroup} → newest qs ≡ some q → IsNewest q qs
unfolding newest
newest-IsNewest [] e = cc
newest-IsNewest (c ∷ qs) e =
    subst (λ z. IsNewest z (c ∷ qs)) (some-injective _ _ e) (newest_from-IsNewest c qs)

-- No candidate is newer than the victim.
pub victim-IsNewest :
    (k : Str) (s : Scheduler) {q : SequenceGroup}
    → pick_preemption_victim k s ≡ some q
    → IsNewest q (candidates k (seqs_of s.by_id s.running))
unfolding pick_preemption_victim
victim-IsNewest k s e = newest-IsNewest (candidates k (seqs_of s.by_id s.running)) e

-- A running sequence, known under its own id.
abbrev pub IsRunning : Scheduler → SequenceGroup → Type 0
IsRunning s q = Running s q.seq_id q

module _ {s : Scheduler} (v : Inv s) where
  running_of_occ :
      (k : Str) (q : SequenceGroup)
      → lookup k s.by_id ≡ some q
      → 0 < occ k s.running
      → IsRunning s q
  running_of_occ k q e h =
      let name : q.seq_id ≡ k = ground (arith, v.names k, e) in
      record { found = ap (λ j. lookup j s.by_id) name ∙ e; status = ground (arith, v.runs k, e) }

  seqs_of-running :
      (queue : List Str)
      → ((k : Str) → 0 < occ k queue → 0 < occ k s.running)
      → All (IsRunning s) (seqs_of s.by_id queue)
  unfolding seqs_of
  seqs_of-running [] h = tt
  seqs_of-running (k ∷ queue) h =
      let rest = seqs_of-running queue (λ j p. h j (omega arith)) in
      elim (Option-cases (lookup k s.by_id)) [
        | inl e ↦ rw (seqs_of, e) rest
        | inr (q, e) ↦
            rw (seqs_of, e) (running_of_occ k q e (h k (ground (arith, str_eq_refl k))), rest)
      ]

  -- The victim is a running sequence.
  pub victim-IsRunning :
      (k : Str) {q : SequenceGroup} → pick_preemption_victim k s ≡ some q → IsRunning s q
  unfolding pick_preemption_victim
  victim-IsRunning k e =
      let all = seqs_of-running s.running (λ j h. h) in
      newest-All (IsRunning s) (candidates k (seqs_of s.by_id s.running))
        (candidates-All (IsRunning s) k (seqs_of s.by_id s.running) all) e

  -- So is the sequence that yields its blocks.
  pub choose_victim-IsRunning :
      (k : Str) (q : SequenceGroup) → IsRunning s q → IsRunning s (choose_victim k q s)
  unfolding choose_victim
  choose_victim-IsRunning k q a = elim (Option-cases (pick_preemption_victim k s)) [
    | inl e ↦ rw e a
    | inr (c, e) ↦ elim (Bool-cases (priority_lt c q)) [
      | inl f ↦ rw (e, f) a
      | inr f ↦ rw (e, f) (victim-IsRunning k e)
    ]
  ]

newest-none : (qs : List SequenceGroup) → newest qs ≡ none → qs ≡ []
unfolding newest
newest-none [] e = refl
newest-none (c ∷ qs) e = cc

IsNewest-trans :
    (b c : SequenceGroup) (qs : List SequenceGroup) → NotNewer b c → IsNewest b qs → IsNewest c qs
IsNewest-trans b c [] h k = tt
IsNewest-trans b c (q ∷ qs) h k = (priority_trans q b c k.0 h, IsNewest-trans b c qs h k.1)

-- The sequence that gives up its blocks so that another one may decode has the greatest priority
-- key, the latest arrival and then the greatest id, among that other sequence and the unfinished
-- running ones.
pub choose_victim-IsNewest :
    (k : Str) (q : SequenceGroup) (s : Scheduler)
    → IsNewest (choose_victim k q s) (q ∷ candidates k (seqs_of s.by_id s.running))
choose_victim-IsNewest k q s = elim (Option-cases (pick_preemption_victim k s)) [
  | inl e ↦
      let chosen : choose_victim k q s ≡ q = unfold choose_victim in rw e in
      subst (λ z. IsNewest z (q ∷ others)) (sym chosen)
        (
          priority_refl q,
          subst (λ l. IsNewest q l) (sym (newest-none others (unfold pick_preemption_victim in e)))
              tt,
        )
  | inr (c, e) ↦
      let newest_other = victim-IsNewest k s e in
      elim (Bool-cases (priority_lt c q)) [
        | inl f ↦
            let chosen : choose_victim k q s ≡ q = unfold choose_victim in rw (e, f) in
            subst (λ z. IsNewest z (q ∷ others)) (sym chosen)
              (priority_refl q, IsNewest-trans c q others (priority_asym c q f) newest_other)
        | inr f ↦
            let chosen : choose_victim k q s ≡ c = unfold choose_victim in rw (e, f) in
            subst (λ z. IsNewest z (q ∷ others)) (sym chosen) (f, newest_other)
      ]
]
  where
    others : List SequenceGroup
    others = candidates k (seqs_of s.by_id s.running)
