-- ===== src/Config/Yaml/Nesting.antt =====
-- llm_serve/config.py: how deep `_scalar` calls itself.
use llm_serve.Prelude.{
  ℕ, zero, suc, ◌≤◌, ◌<◌, ◌≡◌, refl, ap, ◌==◌, Bool, true, false, List, [], ◌∷◌, All, length, Str,
  arith,
}
use llm_serve.Api.ChatTemplate.{strip, strip_start, strip_end}
use llm_serve.Values.{Value, list, Runtime}
use llm_serve.Config.Coerce.{split_on, pushed}
use llm_serve.Config.Yaml.{but_last, rest_of, each, items_of, scalar_or, scalar_within, scalar_of}

length-strip_start : (s : Str) → length (strip_start s) ≤ length s
unfolding strip_start
length-strip_start [] = omega arith
length-strip_start (c ∷ s) = ground (arith, length-strip_start s)

length-strip_end : (s : Str) → length (strip_end s) ≤ length s
unfolding strip_end
length-strip_end [] = omega arith
length-strip_end (c ∷ s) = ground (arith, length-strip_end s)

length-strip : (s : Str) → length (strip s) ≤ length s
unfolding strip
length-strip s = omega (arith, length-strip_end (strip_start s), length-strip_start s)

length-but_last : (s : Str) → length (but_last s) ≤ length s
unfolding but_last
length-but_last [] = omega arith
length-but_last (c ∷ []) = omega arith
length-but_last (c ∷ d ∷ s) = omega (arith, length-but_last (d ∷ s))

-- Texts of at most `n` characters.
abbrev Short : ℕ → List Str → Type 0
Short n = All λ s. length s ≤ n

Short-suc : (n : ℕ) (ps : List Str) → Short n ps → Short (suc n) ps
Short-suc n [] h = tt
Short-suc n (p ∷ ps) h = (omega (arith, h.0), Short-suc n ps h.1)

Short-pushed : (cut : Bool) (d n : ℕ) (ps : List Str) → Short n ps → Short (suc n) (pushed cut d ps)
Short-pushed cut d n [] h = tt
Short-pushed true d n (p ∷ ps) h = (omega arith, Short-suc n (p ∷ ps) h)
Short-pushed false d n (p ∷ ps) h = (omega (arith, h.0), Short-suc n ps h.1)

Short-split_on : (c : ℕ) (s : Str) → Short (length s) (split_on c s)
unfolding split_on
Short-split_on c [] = (omega arith, tt)
Short-split_on c (d ∷ s) = Short-pushed (d == c) d (length s) (split_on c s) (Short-split_on c s)

module _ {Float : Type 0} (R : Runtime Float) where
  each_same :
      (f g : Str → Value Float) (n : ℕ) (ps : List Str)
      → ((p : Str) → length p ≤ n → f p ≡ g p)
      → Short n ps
      → each R (λ p. f (strip p)) ps ≡ each R (λ p. g (strip p)) ps
  each_same f g n [] same short = refl
  each_same f g n (p ∷ ps) same short =
      rw (same (strip p) (omega (arith, length-strip p, short.0)))
        (rw (each_same f g n ps same short.1) refl)

  items_of_same :
      (f g : Str → Value Float) (s : Str)
      → ((p : Str) → length p ≤ length s → f p ≡ g p)
      → items_of R f s ≡ items_of R g s
  items_of_same f g [] same = refl
  items_of_same f g (c ∷ s) same =
      ap list
        (each_same f g (length (c ∷ s)) (split_on b',' (c ∷ s)) same (Short-split_on b',' (c ∷ s)))

  inner_length : (c : ℕ) (s : Str) → length (strip (but_last s)) ≤ length s
  inner_length c s = omega (arith, length-strip (but_last s), length-but_last s)

  -- Two amounts of fuel that are more than the text is long give the same.
  scalar_within_same :
      (fuel more : ℕ) (s : Str)
      → length s < fuel
      → length s < more
      → scalar_within R fuel s ≡ scalar_within R more s
  unfolding scalar_within strip strip_start strip_end but_last
  scalar_within_same zero more s h k = absurd (omega (arith, h))
  scalar_within_same (suc fuel) zero s h k = absurd (omega (arith, k))
  scalar_within_same (suc fuel) (suc more) [] h k = refl
  scalar_within_same (suc fuel) (suc more) (c ∷ s) h k =
      ap (λ items. scalar_or R items (c ∷ s))
        (items_of_same (scalar_within R fuel) (scalar_within R more) (strip (but_last s)) λ p short.
          scalar_within_same fuel more p (omega (arith, short, inner_length c s, h))
            (omega (arith, short, inner_length c s, k)))

  -- `_scalar` ends on every text: with the length of the text as a bound on its depth it satisfies
  -- the equation of the source, in which a bracketed text is the list of the scalars of its items.
  pub scalar_of_lem :
      (s : Str)
      → scalar_of R s ≡ scalar_or R (items_of R (scalar_of R) (strip (but_last (rest_of s)))) s
  unfolding scalar_of scalar_within strip strip_start strip_end but_last
  scalar_of_lem [] = refl
  scalar_of_lem (c ∷ s) =
      ap (λ items. scalar_or R items (c ∷ s))
        (items_of_same (scalar_within R (length (c ∷ s))) (scalar_of R) (strip (but_last s))
          λ p short.
            scalar_within_same (length (c ∷ s)) (suc (length p)) p
              (omega (arith, short, inner_length c s)) (omega arith))
