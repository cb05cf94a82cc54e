-- ===== src/Engine/Scheduler/Queues.antt =====
-- The queues of llm_serve/engine/scheduler.py: how often a sequence stands in one.
use llm_serve.Prelude.{
  ℕ, ◌+◌, ◌-◌, ◌≤◌, ◌<◌, ◌≡◌, refl, List, [], ◌∷◌, ◌++◌, length, Str, str_eq, str_eq_iff,
  if◌then◌else◌, ltb, arith,
}
use llm_serve.Engine.Scheduler.State.{is_in, erase}

-- One for the same id.
abbrev pub same : Str → Str → ℕ
same j k = if str_eq j k then 1 else 0

abbrev pub occ : Str → List Str → ℕ
occ k [] = 0
occ k (j ∷ q) = same j k + occ k q

pub occ-append : (k : Str) (p q : List Str) → occ k (p ++ q) ≡ occ k p + occ k q
occ-append k [] q = omega arith
occ-append k (j ∷ p) q = omega (arith, occ-append k p q)

pub is_in-occ : (k : Str) (q : List Str) → is_in k q ≡ ltb 0 (occ k q)
unfolding is_in
is_in-occ k [] = refl
is_in-occ k (j ∷ q) = ground (arith, is_in-occ k q)

pub occ-erase : (j k : Str) (q : List Str) → 0 < occ k q → occ j (erase k q) ≡ occ j q - same k j
unfolding erase
occ-erase j k [] h = absurd (omega arith)
occ-erase j k (i ∷ q) h =
    ground (arith, occ-erase j k q, str_eq_iff i k, str_eq_iff i j, str_eq_iff k j)

pub length-erase : (k : Str) (q : List Str) → 0 < occ k q → length (erase k q) + 1 ≡ length q
unfolding erase
length-erase k [] h = absurd (omega arith)
length-erase k (i ∷ q) h = ground (arith, length-erase k q)

pub occ-le-length : (k : Str) (q : List Str) → occ k q ≤ length q
occ-le-length k [] = omega arith
occ-le-length k (j ∷ q) = ground (arith, occ-le-length k q)
