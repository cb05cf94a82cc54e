-- ===== src/Engine/Statistics/Histogram.antt =====
-- The histogram of llm_serve/engine/stats.py, against the batch sizes in the window.
use llm_serve.Prelude.{
  ℕ, ◌+◌, ◌≤◌, ◌<◌, ◌≡◌, ◌≢◌, refl, inl, inr, List, [], ◌∷◌, map, count, hit, All, leb, ◌==◌,
  if◌then◌else◌, Bool-cases, arith,
}
use llm_serve.Engine.Statistics.{
  EngineStatsTracker, bump, tally, place, sorted, batch_size_histogram,
}

-- The number under a key, or 0.
pub value : ℕ → List (ℕ × ℕ) → ℕ
value k [] = 0
value k (e ∷ hist) = let rest = value k hist in if e.0 == k then e.1 else rest

value-bump : (k j : ℕ) (hist : List (ℕ × ℕ)) → value k (bump j hist) ≡ value k hist + hit j k
unfolding value bump
value-bump k j [] = ground arith
value-bump k j (e ∷ hist) = ground (arith, value-bump k j hist)

value-tally :
    (k : ℕ) (ks : List ℕ) (hist : List (ℕ × ℕ))
    → value k (tally ks hist) ≡ value k hist + count k ks
unfolding tally
value-tally k [] hist = omega arith
value-tally k (j ∷ ks) hist = omega (arith, value-tally k ks (bump j hist), value-bump k j hist)

value-place :
    (k : ℕ) (e : ℕ × ℕ) (hist : List (ℕ × ℕ)) → value k (place e hist) ≡ value k (e ∷ hist)
unfolding value place
value-place k e [] = refl
value-place k e (f ∷ hist) = ground (arith, value-place k e hist)

value-sorted : (k : ℕ) (hist : List (ℕ × ℕ)) → value k (sorted hist) ≡ value k hist
unfolding value sorted
value-sorted k [] = refl
value-sorted k (e ∷ hist) = ground (arith, value-place k e (sorted hist), value-sorted k hist)

-- No entry has the key.
abbrev Lacks : ℕ → List (ℕ × ℕ) → Type 0
Lacks k hist = All (λ e. e.0 ≢ k) hist

abbrev HasDistinctKeys : List (ℕ × ℕ) → Type 0
HasDistinctKeys [] = Unit
HasDistinctKeys (e ∷ hist) = Lacks e.0 hist × HasDistinctKeys hist

-- The keys increase.
abbrev pub Ascends : List (ℕ × ℕ) → Type 0
Ascends [] = Unit
Ascends (e ∷ hist) = All (λ f. e.0 < f.0) hist × Ascends hist

bump-Lacks : (k j : ℕ) (hist : List (ℕ × ℕ)) → j ≢ k → Lacks k hist → Lacks k (bump j hist)
unfolding bump
bump-Lacks k j [] h l = (h, tt)
bump-Lacks k j (e ∷ hist) h l = elim (Bool-cases (e.0 == j)) [
  | inl t ↦ rw t (h, l.1)
  | inr t ↦ rw t (l.0, bump-Lacks k j hist h l.1)
]

bump-HasDistinctKeys :
    (j : ℕ) (hist : List (ℕ × ℕ)) → HasDistinctKeys hist → HasDistinctKeys (bump j hist)
unfolding bump
bump-HasDistinctKeys j [] h = (tt, tt)
bump-HasDistinctKeys j (e ∷ hist) h = elim (Bool-cases (e.0 == j)) [
  | inl t ↦ let same : e.0 ≡ j = ground arith in rw t (rw same at (h.0), h.1)
  | inr t ↦ rw t (bump-Lacks e.0 j hist (λ x. ground arith) h.0, bump-HasDistinctKeys j hist h.1)
]

tally-HasDistinctKeys :
    (ks : List ℕ) (hist : List (ℕ × ℕ)) → HasDistinctKeys hist → HasDistinctKeys (tally ks hist)
unfolding tally
tally-HasDistinctKeys [] hist h = h
tally-HasDistinctKeys (k ∷ ks) hist h =
    tally-HasDistinctKeys ks (bump k hist) (bump-HasDistinctKeys k hist h)

place-All :
    (P : ℕ × ℕ → Type 0) (e : ℕ × ℕ) (hist : List (ℕ × ℕ)) → P e → All P hist → All P (place e hist)
unfolding place
place-All P e [] p h = (p, tt)
place-All P e (f ∷ hist) p h = elim (Bool-cases (leb e.0 f.0)) [
  | inl t ↦ rw t (p, h)
  | inr t ↦ rw t (h.0, place-All P e hist p h.1)
]

sorted-All : (P : ℕ × ℕ → Type 0) (hist : List (ℕ × ℕ)) → All P hist → All P (sorted hist)
unfolding sorted
sorted-All P [] h = tt
sorted-All P (e ∷ hist) h = place-All P e (sorted hist) h.0 (sorted-All P hist h.1)

below-All :
    (i j : ℕ) (hist : List (ℕ × ℕ)) → i ≤ j → All (λ f. j < f.0) hist → All (λ f. i < f.0) hist
below-All i j [] h k = tt
below-All i j (f ∷ hist) h k = (omega (arith, k.0), below-All i j hist h k.1)

place-Ascends :
    (e : ℕ × ℕ) (hist : List (ℕ × ℕ)) → Lacks e.0 hist → Ascends hist → Ascends (place e hist)
unfolding place
place-Ascends e [] l h = (tt, tt)
place-Ascends e (f ∷ hist) l h = elim (Bool-cases (leb e.0 f.0)) [
  | inl t ↦
      let less : e.0 < f.0 = ground (arith, l.0) in
      rw t ((less, below-All e.0 f.0 hist (omega arith) h.0), h)
  | inr t ↦
      rw t (place-All (λ g. f.0 < g.0) e hist (ground arith) h.0, place-Ascends e hist l.1 h.1)
]

sorted-Ascends : (hist : List (ℕ × ℕ)) → HasDistinctKeys hist → Ascends (sorted hist)
unfolding sorted
sorted-Ascends [] h = tt
sorted-Ascends (e ∷ hist) h =
    place-Ascends e (sorted hist) (sorted-All (λ f. f.0 ≢ e.0) hist h.0) (sorted-Ascends hist h.1)

-- The batch-size histogram of a tracker gives each size as often as it stands in the window, and
-- its sizes increase.
pub batch_size_histogram_lem :
    {Usage : Type 0} (s : EngineStatsTracker Usage) (k : ℕ)
    → (value k (batch_size_histogram s) ≡ count k (map (λ x. x.batch_size) s.snapshots))
      × Ascends (batch_size_histogram s)
unfolding batch_size_histogram value
batch_size_histogram_lem s k =
    let sizes = map (λ x. x.batch_size) s.snapshots in
    (
      omega (arith, value-sorted k (tally sizes []), value-tally k sizes []),
      sorted-Ascends (tally sizes []) (tally-HasDistinctKeys sizes [] tt),
    )
