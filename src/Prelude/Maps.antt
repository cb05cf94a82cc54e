-- ===== src/Prelude/Maps.antt =====
-- Python's `dict` with string keys, as an association list in insertion order.
use Prim.Native.Nat.{◌+◌}
use mathlib.Core.Path.{◌≡◌, refl, ap}
use mathlib.Core.Logic.{inl, inr}
use mathlib.Core.Option.{Option, none, some}
use mathlib.Core.List.{List, [], ◌∷◌, ◌++◌}
use native.Mathlib.Omega.{arith}
use llm_serve.Prelude.Tests.{if◌then◌else◌, Bool-cases}
use llm_serve.Prelude.Text.{Str, str_eq, str_eq_iff, str_eq_refl}
use llm_serve.Prelude.Lists.{length}

abbrev pub Dict {ℓ} : Type ℓ → Type ℓ
Dict V = List (Str × V)

module _ {ℓ} {V : Type ℓ} where
  -- `d.get(k)`
  unfoldable pub lookup : Str → Dict V → Option V
  lookup k [] = none
  lookup k ((j, v) ∷ d) = if str_eq j k then some v else lookup k d

  -- `d[k] = v`: an old key keeps its place.
  unfoldable pub insert : Str → V → Dict V → Dict V
  insert k v [] = (k, v) ∷ []
  insert k v ((j, w) ∷ d) = if str_eq j k then (j, v) ∷ d else (j, w) ∷ insert k v d

  -- `d.pop(k, None)`
  unfoldable pub remove : Str → Dict V → Dict V
  remove k [] = []
  remove k ((j, v) ∷ d) = let rest = remove k d in if str_eq j k then rest else (j, v) ∷ rest

  -- No key stands twice.
  abbrev pub DistinctKeys : Dict V → Type ℓ
  DistinctKeys [] = Unit
  DistinctKeys ((k, v) ∷ d) = (lookup k d ≡ none) × DistinctKeys d

  pub lookup-insert :
      (k j : Str) (v : V) (d : Dict V)
      → lookup j (insert k v d) ≡ (if str_eq k j then some v else lookup j d)
  unfolding lookup insert
  lookup-insert k j v [] = refl
  lookup-insert k j v ((i, w) ∷ d) =
      ground (arith, str_eq_iff k j, str_eq_iff i k, str_eq_iff i j, lookup-insert k j v d)

  pub lookup-remove :
      (k j : Str) (d : Dict V) → lookup j (remove k d) ≡ (if str_eq k j then none else lookup j d)
  unfolding lookup remove
  lookup-remove k j [] = ground arith
  lookup-remove k j ((i, w) ∷ d) =
      ground (arith, str_eq_iff k j, str_eq_iff i k, str_eq_iff i j, lookup-remove k j d)

  pub remove_absent : (k : Str) (d : Dict V) → lookup k d ≡ none → remove k d ≡ d
  unfolding lookup remove
  remove_absent k [] h = refl
  remove_absent k ((i, w) ∷ d) h = ground (arith, remove_absent k d)

  -- Writing the value that is there changes nothing, and the last of two writes counts.
  pub insert_same : (k : Str) (v : V) (d : Dict V) → lookup k d ≡ some v → insert k v d ≡ d
  unfolding lookup insert
  insert_same k v [] h = ground arith
  insert_same k v ((j, w) ∷ d) h = ground (arith, insert_same k v d)

  pub insert-insert : (k : Str) (v w : V) (d : Dict V) → insert k v (insert k w d) ≡ insert k v d
  unfolding insert
  insert-insert k v w [] = rw (str_eq_refl k)
  insert-insert k v w ((j, u) ∷ d) = ground (arith, insert-insert k v w d)

  pub DistinctKeys-insert :
      (k : Str) (v : V) (d : Dict V) → DistinctKeys d → DistinctKeys (insert k v d)
  unfolding lookup insert
  DistinctKeys-insert k v [] h = (refl, tt)
  DistinctKeys-insert k v ((i, w) ∷ d) h = elim (Bool-cases (str_eq i k)) [
    | inl e ↦ rw e h
    | inr e ↦ rw e (
      ground (arith, str_eq_iff i k, str_eq_iff k i, lookup-insert k i v d),
      DistinctKeys-insert k v d h.1,
    )
  ]

  pub DistinctKeys-remove : (k : Str) (d : Dict V) → DistinctKeys d → DistinctKeys (remove k d)
  unfolding lookup remove
  DistinctKeys-remove k [] h = tt
  DistinctKeys-remove k ((i, w) ∷ d) h = elim (Bool-cases (str_eq i k)) [
    | inl e ↦ rw e (DistinctKeys-remove k d h.1)
    | inr e ↦ rw e (ground (arith, lookup-remove k i d), DistinctKeys-remove k d h.1)
  ]

module _ {ℓ} {V : Type ℓ} where
  -- The first of the two dictionaries comes first.
  abbrev pub or_else : Option V → Option V → Option V
  or_else none o = o
  or_else (some v) o = some v

  pub lookup-append :
      (k : Str) (d e : Dict V) → lookup k (d ++ e) ≡ or_else (lookup k d) (lookup k e)
  unfolding lookup
  lookup-append k [] e = refl
  lookup-append k ((j, w) ∷ d) e = ground (arith, lookup-append k d e)

  pub DistinctKeys-append_new :
      (k : Str) (v : V) (d : Dict V)
      → lookup k d ≡ none
      → DistinctKeys d
      → DistinctKeys (d ++ (k, v) ∷ [])
  unfolding lookup
  DistinctKeys-append_new k v [] h u = (refl, tt)
  DistinctKeys-append_new k v ((j, w) ∷ d) h u = (
    ground (arith, lookup-append j d ((k, v) ∷ []), str_eq_iff j k, str_eq_iff k j),
    DistinctKeys-append_new k v d (ground arith) u.1,
  )

  -- A new key is written at the end.
  pub insert_new :
      (k : Str) (v : V) (d : Dict V) → lookup k d ≡ none → insert k v d ≡ d ++ (k, v) ∷ []
  unfolding lookup insert
  insert_new k v [] h = refl
  insert_new k v ((j, w) ∷ d) h = ground (arith, insert_new k v d)

  pub length-remove :
      (k : Str) (v : V) (d : Dict V)
      → DistinctKeys d
      → lookup k d ≡ some v
      → length (remove k d) + 1 ≡ length d
  unfolding lookup remove
  length-remove k v [] u h = ground arith
  length-remove k v ((j, w) ∷ d) u h = elim (Bool-cases (str_eq j k)) [
    | inl e ↦
        let here : j ≡ k = (str_eq_iff j k).0 e in
        rw e (ground (arith, remove_absent k d, ap (λ (i : Str). lookup i d) here))
    | inr e ↦ rw e (ground (arith, length-remove k v d))
  ]
