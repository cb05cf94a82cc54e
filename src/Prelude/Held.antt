-- ===== src/Prelude/Held.antt =====
-- The numbers that the values of a dictionary hold, with multiplicities.
use Prim.Native.Nat.{ℕ, ◌+◌, ◌≤◌, ◌<◌}
use mathlib.Core.Path.{◌≡◌, refl, ap}
use mathlib.Core.Logic.{inl, inr}
use mathlib.Core.Option.{none, some}
use mathlib.Core.List.{List, [], ◌∷◌, ◌++◌}
use native.Mathlib.Omega.{arith}
use llm_serve.Prelude.Tests.{Bool-cases}
use llm_serve.Prelude.Text.{Str, str_eq, str_eq_iff}
use llm_serve.Prelude.Counts.{hit, count, count-append}
use llm_serve.Prelude.Maps.{Dict, lookup, insert, remove, DistinctKeys, remove_absent}

-- All the numbers that the values of a dictionary of lists hold.
unfoldable pub held : Dict (List ℕ) → List ℕ
held [] = []
held ((k, xs) ∷ d) = xs ++ held d

pub count-held-insert :
    (a : ℕ) (k : Str) (xs ys : List ℕ) (d : Dict (List ℕ))
    → lookup k d ≡ some xs
    → count a (held (insert k ys d)) + count a xs ≡ count a (held d) + count a ys
unfolding lookup insert held
count-held-insert a k xs ys [] h = ground arith
count-held-insert a k xs ys ((i, zs) ∷ d) h = ground (
  arith,
  count-append a ys (held d),
  count-append a zs (held d),
  count-append a zs (held (insert k ys d)),
  count-held-insert a k xs ys d,
)

pub count-held-insert_new :
    (a : ℕ) (k : Str) (ys : List ℕ) (d : Dict (List ℕ))
    → lookup k d ≡ none
    → count a (held (insert k ys d)) ≡ count a (held d) + count a ys
unfolding lookup insert held
count-held-insert_new a k ys [] h = omega (arith, count-append a ys [])
count-held-insert_new a k ys ((i, zs) ∷ d) h = ground (
  arith,
  count-append a zs (held d),
  count-append a zs (held (insert k ys d)),
  count-held-insert_new a k ys d,
)

pub count-held-remove :
    (a : ℕ) (k : Str) (xs : List ℕ) (d : Dict (List ℕ))
    → DistinctKeys d
    → lookup k d ≡ some xs
    → count a (held (remove k d)) + count a xs ≡ count a (held d)
unfolding lookup remove held
count-held-remove a k xs [] u h = ground arith
count-held-remove a k xs ((i, zs) ∷ d) u h = elim (Bool-cases (str_eq i k)) [
  | inl e ↦
      let here : i ≡ k = (str_eq_iff i k).0 e in
      rw e (
        ground
          (arith, count-append a zs (held d), remove_absent k d, ap (λ (j : Str). lookup j d) here))
  | inr e ↦ rw e (
      ground (
        arith,
        count-append a zs (held d),
        count-append a zs (held (remove k d)),
        count-held-remove a k xs d,
      ))
]

-- A list that a lookup finds is part of what the dictionary holds.
pub count-held-lookup :
    (a : ℕ) (k : Str) (xs : List ℕ) (d : Dict (List ℕ))
    → lookup k d ≡ some xs
    → count a xs ≤ count a (held d)
unfolding lookup held
count-held-lookup a k xs [] h = ground arith
count-held-lookup a k xs ((i, zs) ∷ d) h =
    ground (arith, count-append a zs (held d), count-held-lookup a k xs d)

-- The numbers of a dictionary of numbers.
abbrev pub values : Dict ℕ → List ℕ
values [] = []
values ((k, v) ∷ d) = v ∷ values d

pub values-append : (d e : Dict ℕ) → values (d ++ e) ≡ values d ++ values e
values-append [] e = refl
values-append ((k, v) ∷ d) e = ap (◌∷◌ v) (values-append d e)

pub count-values-remove :
    (a : ℕ) (k : Str) (v : ℕ) (d : Dict ℕ)
    → DistinctKeys d
    → lookup k d ≡ some v
    → count a (values (remove k d)) + hit v a ≡ count a (values d)
unfolding lookup remove
count-values-remove a k v [] u h = ground arith
count-values-remove a k v ((j, w) ∷ d) u h = elim (Bool-cases (str_eq j k)) [
  | inl e ↦
      let here : j ≡ k = (str_eq_iff j k).0 e in
      rw e (ground (arith, remove_absent k d, ap (λ (i : Str). lookup i d) here))
  | inr e ↦ rw e (ground (arith, count-values-remove a k v d))
]

-- A value that a lookup finds is among the values.
pub count-values-lookup :
    (k : Str) (v : ℕ) (d : Dict ℕ) → lookup k d ≡ some v → 0 < count v (values d)
unfolding lookup
count-values-lookup k v [] h = ground arith
count-values-lookup k v ((j, w) ∷ d) h = ground (arith, count-values-lookup k v d)
