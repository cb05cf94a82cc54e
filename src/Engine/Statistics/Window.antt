-- ===== src/Engine/Statistics/Window.antt =====
-- The window of llm_serve/engine/stats.py, against the list of all snapshots.
use llm_serve.Prelude.{
  ℕ, zero, suc, ◌+◌, ◌-◌, ◌≤◌, ◌≡◌, refl, ap, ◌∙◌, sym, false, inl, inr, List, [], ◌∷◌, ◌++◌, map,
  append_assoc, append-nil, length, length-append, drop, length-drop, ltb, Bool-cases, ok, arith,
}
use llm_serve.Engine.Statistics.{
  Snapshot, EngineStatsTracker, total, init, push_bounded, observe, observe_all,
}

drop-append :
    {A : Type 0} (k : ℕ) (xs ys : List A) → k ≤ length xs → drop k (xs ++ ys) ≡ drop k xs ++ ys
drop-append zero xs ys h = refl
drop-append (suc k) [] ys h = absurd (omega arith)
drop-append (suc k) (x ∷ xs) ys h = drop-append k xs ys (omega arith)

drop-drop : {A : Type 0} (k : ℕ) (xs : List A) → drop 1 (drop k xs) ≡ drop (suc k) xs
drop-drop zero xs = refl
drop-drop (suc k) [] = refl
drop-drop (suc k) (x ∷ xs) = drop-drop k xs

total-append : (xs ys : List ℕ) → total (xs ++ ys) ≡ total xs + total ys
unfolding total
total-append [] ys = omega arith
total-append (x ∷ xs) ys = omega (arith, total-append xs ys)

module _ {Usage : Type 0} where
  -- The latest `w` of a list.
  abbrev pub latest : ℕ → List (Snapshot Usage) → List (Snapshot Usage)
  latest w xs = drop (length xs - w) xs

  push_bounded-latest :
      (w : ℕ) (x : Snapshot Usage) (xs : List (Snapshot Usage))
      → push_bounded w x (latest w xs) ≡ latest w (xs ++ x ∷ [])
  unfolding push_bounded
  push_bounded-latest w x xs =
      let k = length xs - w in
      let size = length-drop k xs in
      let longer = length-append xs (x ∷ []) in
      elim (Bool-cases (ltb (length xs) w)) [
        | inl e ↦
            let none_before : k ≡ 0 = ground arith in
            let none_after : length (xs ++ x ∷ []) - w ≡ 0 = ground arith in
            rw (none_before, none_after, e) refl
        | inr e ↦
            let full : ltb (length (drop k xs)) w ≡ false = ground arith in
            let next : length (xs ++ x ∷ []) - w ≡ suc k = ground arith in
            rw (full, next)
              (ap (drop 1) (sym (drop-append k xs (x ∷ []) (omega arith)))
                ∙ drop-drop k (xs ++ x ∷ []))
      ]

  -- What a tracker holds after the snapshots `ys`.
  record Holds (ys : List (Snapshot Usage)) (s : EngineStatsTracker Usage) : Type 0 where
    snapshots : s.snapshots ≡ latest s.window ys
    steps : s.total_steps ≡ length ys
    tokens : s.total_batched_tokens ≡ total (map (λ y. y.batched_tokens) ys)

  map-append :
      (xs ys : List (Snapshot Usage))
      → map (λ y. y.batched_tokens) (xs ++ ys)
        ≡ map (λ y. y.batched_tokens) xs ++ map (λ y. y.batched_tokens) ys
  map-append [] ys = refl
  map-append (x ∷ xs) ys = ap (◌∷◌ x.batched_tokens) (map-append xs ys)

  total_snoc :
      (ys : List (Snapshot Usage)) (x : Snapshot Usage)
      → total (map (λ y. y.batched_tokens) (ys ++ x ∷ []))
        ≡ total (map (λ y. y.batched_tokens) ys) + x.batched_tokens
  unfolding total
  total_snoc ys x =
      rw (map-append ys (x ∷ []))
        (omega (arith, total-append (map (λ y. y.batched_tokens) ys) (x.batched_tokens ∷ [])))

  observe-Holds :
      (ys : List (Snapshot Usage)) (x : Snapshot Usage) (s : EngineStatsTracker Usage)
      → Holds ys s
      → Holds (ys ++ x ∷ []) (observe x s)
  unfolding observe
  observe-Holds ys x s h = record {
    snapshots = ap (push_bounded s.window x) h.snapshots ∙ push_bounded-latest s.window x ys;
    steps = omega (arith, h.steps, length-append ys (x ∷ []));
    tokens = omega (arith, h.tokens, total_snoc ys x);
  }

  observe_all-Holds :
      (xs ys : List (Snapshot Usage)) (s : EngineStatsTracker Usage)
      → Holds ys s
      → Holds (ys ++ xs) (observe_all xs s) × ((observe_all xs s).window ≡ s.window)
  unfolding observe_all observe
  observe_all-Holds [] ys s h = rw (append-nil ys) (h, refl)
  observe_all-Holds (x ∷ xs) ys s h =
      rw (← append_assoc ys (x ∷ []) xs)
        (observe_all-Holds xs (ys ++ x ∷ []) (observe x s) (observe-Holds ys x s h))

  -- A new tracker that recorded a list of snapshots holds the last `window` of them in order, at
  -- most `window`, and its totals count every snapshot and sum the batched tokens of all of them.
  pub observe_all_lem :
      (window : ℕ) (xs : List (Snapshot Usage)) {s : EngineStatsTracker Usage}
      → init window ≡ ok s
      → ((observe_all xs s).snapshots ≡ drop (length xs - window) xs)
        × (length (observe_all xs s).snapshots ≤ window)
        × ((observe_all xs s).total_steps ≡ length xs)
        × ((observe_all xs s).total_batched_tokens ≡ total (map (λ x. x.batched_tokens) xs))
  unfolding init total
  observe_all_lem window xs {s} e =
      let fresh : s
          ≡ record { window = window; snapshots = []; total_steps = 0; total_batched_tokens = 0 } =
        ground (arith, e) in
      let start : Holds [] s =
        rw fresh (record { snapshots = drop_nothing window; steps = refl; tokens = refl }) in
      let (h, kept) = observe_all-Holds xs [] s start in
      let same : (observe_all xs s).window ≡ window =
        kept ∙ ap (λ (t : EngineStatsTracker Usage). t.window) fresh in
      let held : (observe_all xs s).snapshots ≡ latest window xs =
        h.snapshots ∙ ap (λ w. latest w xs) same in
      (
        held,
        omega (
          arith,
          ap (λ (l : List (Snapshot Usage)). length l) held,
          length-drop (length xs - window) xs,
        ),
        h.steps,
        h.tokens,
      )
    where
      drop_nothing : (w : ℕ) → [] ≡ latest w []
      drop_nothing w = let none_left : 0 - w ≡ 0 = omega arith in rw none_left refl
