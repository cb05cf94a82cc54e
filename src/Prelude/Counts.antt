-- ===== src/Prelude/Counts.antt =====
-- Multiplicities in lists of numbers, and tables of counters: the view under which the order of a
-- free list or of a block table is forgotten.
use Prim.Native.Nat.{ℕ, zero, suc, ◌+◌, ◌-◌, ◌≤◌, ◌<◌}
use mathlib.Core.Path.{◌≡◌, refl, ap}
use mathlib.Core.List.{List, [], ◌∷◌, ◌++◌}
use native.Mathlib.Omega.{arith}
use llm_serve.Prelude.Tests.{◌==◌, if◌then◌else◌}
use llm_serve.Prelude.Lists.{length, get_or, take, drop}

-- One if the two blocks are the same.
abbrev pub hit : ℕ → ℕ → ℕ
hit a b = if a == b then 1 else 0

abbrev pub count : ℕ → List ℕ → ℕ
count a [] = 0
count a (x ∷ xs) = hit x a + count a xs

pub count-append :
    (n : ℕ) (left right : List ℕ) → count n (left ++ right) ≡ count n left + count n right
count-append n [] right = omega arith
count-append n (m ∷ left) right = omega (count-append n left right, arith)

pub count-take-drop :
    (a n : ℕ) (xs : List ℕ) → count a (take n xs) + count a (drop n xs) ≡ count a xs
count-take-drop a zero xs = omega arith
count-take-drop a (suc n) [] = omega arith
count-take-drop a (suc n) (x ∷ xs) = omega (arith, count-take-drop a n xs)

-- `counters[i] += 1`; out of range nothing changes here, and the callers raise.
abbrev pub incr : List ℕ → ℕ → List ℕ
incr [] i = []
incr (c ∷ cs) zero = suc c ∷ cs
incr (c ∷ cs) (suc i) = c ∷ incr cs i

-- `counters[i] -= 1`
abbrev pub decr : List ℕ → ℕ → List ℕ
decr [] i = []
decr (c ∷ cs) zero = (c - 1) ∷ cs
decr (c ∷ cs) (suc i) = c ∷ decr cs i

pub length-incr : (cs : List ℕ) (i : ℕ) → length (incr cs i) ≡ length cs
length-incr [] i = refl
length-incr (c ∷ cs) zero = refl
length-incr (c ∷ cs) (suc i) = ap suc (length-incr cs i)

pub length-decr : (cs : List ℕ) (i : ℕ) → length (decr cs i) ≡ length cs
length-decr [] i = refl
length-decr (c ∷ cs) zero = refl
length-decr (c ∷ cs) (suc i) = ap suc (length-decr cs i)

pub get_or-incr :
    (cs : List ℕ) (i j : ℕ) → i < length cs → get_or (incr cs i) j 0 ≡ get_or cs j 0 + hit i j
get_or-incr [] i j h = absurd (omega arith)
get_or-incr (c ∷ cs) zero zero h = omega arith
get_or-incr (c ∷ cs) zero (suc j) h = ground arith
get_or-incr (c ∷ cs) (suc i) zero h = ground arith
get_or-incr (c ∷ cs) (suc i) (suc j) h = ground (arith, get_or-incr cs i j)

pub get_or-decr : (cs : List ℕ) (i j : ℕ) → get_or (decr cs i) j 0 ≡ get_or cs j 0 - hit i j
get_or-decr [] i j = ground arith
get_or-decr (c ∷ cs) zero zero = ground arith
get_or-decr (c ∷ cs) zero (suc j) = ground arith
get_or-decr (c ∷ cs) (suc i) zero = ground arith
get_or-decr (c ∷ cs) (suc i) (suc j) = ground (arith, get_or-decr cs i j)

pub get_or_out : (cs : List ℕ) (j : ℕ) → length cs ≤ j → get_or cs j 0 ≡ 0
get_or_out [] j h = refl
get_or_out (c ∷ cs) zero h = absurd (omega arith)
get_or_out (c ∷ cs) (suc j) h = get_or_out cs j (omega arith)
