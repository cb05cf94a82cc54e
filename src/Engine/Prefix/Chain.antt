-- ===== src/Engine/Prefix/Chain.antt =====
-- The chained hashes of llm_serve/engine/prefix_cache.py, and what they ask of the digest.
use llm_serve.Prelude.{
  ℕ, zero, suc, ◌+◌, ◌-◌, ◌*◌, ◌/◌, ◌≤◌, ◌<◌, ◌≡◌, ◌≢◌, refl, ap, ◌∙◌, sym, List, [], some, ◌∷◌,
  ◌++◌, length, take, drop, get_elem?, Str, length-take, length-drop, arith,
}
use llm_serve.Engine.Prefix.{hash_from, payload, slice, prefix_seed}
use llm_serve.Engine.Prefix.Find.{hashes, le-mul_of_le-div}
use llm_serve.Engine.Prefix.Payload.{NoBar, payload-injective}

take-add : (i j n : ℕ) (xs : List ℕ) → n ≡ i + j → take n xs ≡ take i xs ++ take j (drop i xs)
take-add zero j n xs e = ap (λ k. take k xs) (let f : n ≡ j = omega arith in f)
take-add (suc i) j zero xs e = absurd (omega arith)
take-add (suc i) zero (suc n) [] e = refl
take-add (suc i) (suc j) (suc n) [] e = refl
take-add (suc i) j (suc n) (x ∷ xs) e = ap (◌∷◌ x) (take-add i j n xs (omega arith))

-- The blake2b of the program, as far as the cache relies on it: different payloads have different
-- hexadecimal digests, which hold no `|`, and no digest is the seed (it has 32 characters).
pub record IsDigest (digest : Str → Str) : Type 0 where
  pub injective : (p q : Str) → digest p ≡ digest q → p ≡ q
  pub no_bar : (p : Str) → NoBar (digest p)
  pub not_seed : (p : Str) → digest p ≢ prefix_seed

module _ (digest : Str → Str) where
  -- The hash after `i` blocks.
  chain : List ℕ → ℕ → ℕ → Str
  chain tokens size zero = prefix_seed
  chain tokens size (suc i) =
      digest (payload (chain tokens size i) (slice tokens (i * size) ((i + 1) * size)))

  hash_from-chain :
      (tokens : List ℕ) (size i n k m : ℕ) (h : Str)
      → i + k ≡ m
      → get_elem? (hash_from digest tokens size i n (chain tokens size i)) k ≡ some h
      → (h ≡ chain tokens size (suc m)) × (k < n)
  unfolding hash_from chain
  hash_from-chain tokens size i zero k m h p e = absurd (ground arith)
  hash_from-chain tokens size i (suc n) zero m h p e =
      let here : i ≡ m = omega arith in
      let first : chain tokens size (suc i) ≡ h = ground arith in
      (sym first ∙ ap (λ j. chain tokens size (suc j)) here, omega arith)
  hash_from-chain tokens size i (suc n) (suc k) m h p e =
      let (found, below) = hash_from-chain tokens size (suc i) n k m h (omega arith) e in
      (found, omega arith)

  module _ (d : IsDigest digest) (size : ℕ) (positive : 0 < size) where
    chain-NoBar : (tokens : List ℕ) (i : ℕ) → NoBar (chain tokens size i)
    unfolding chain
    chain-NoBar tokens zero = omega arith
    chain-NoBar tokens (suc i) = d.no_bar _

    length-slice-pos :
        (xs : List ℕ) (i : ℕ)
        → suc i * size ≤ length xs
        → 0 < length (slice xs (i * size) ((i + 1) * size))
    length-slice-pos xs i h = omega (
      arith,
      length-take ((i + 1) * size - i * size) (drop (i * size) xs),
      length-drop (i * size) xs,
    )

    take-slice :
        (xs : List ℕ) (i : ℕ)
        → take (suc i * size) xs ≡ take (i * size) xs ++ slice xs (i * size) ((i + 1) * size)
    take-slice xs i =
        take-add (i * size) ((i + 1) * size - i * size) (suc i * size) xs (omega arith)

    -- Equal hashes end chains of equal length over equal tokens.
    chain-injective :
        (a b : List ℕ) (i j : ℕ)
        → i * size ≤ length a
        → j * size ≤ length b
        → chain a size i ≡ chain b size j
        → (i ≡ j) × (take (i * size) a ≡ take (j * size) b)
    unfolding chain
    chain-injective a b zero zero p q e =
        let none_yet : 0 * size ≡ 0 = omega arith in (refl, rw none_yet)
    chain-injective a b zero (suc j) p q e = absurd (d.not_seed _ (sym e))
    chain-injective a b (suc i) zero p q e = absurd (d.not_seed _ e)
    chain-injective a b (suc i) (suc j) p q e =
        let (parents, chunks) =
          payload-injective _ _ _ _ (chain-NoBar a i) (chain-NoBar b j) (length-slice-pos a i p)
            (length-slice-pos b j q) (d.injective _ _ e) in
        let (same, before) = chain-injective a b i j (grind arith) (grind arith) parents in
        (ap suc same, take-slice a i ∙ (λ t. before t ++ chunks t) ∙ sym (take-slice b j))

    -- If the digest is injective, prints no `|` and never gives the seed, then two prompts have a
    -- block hash in common only at the same block number and only if they agree on that block and
    -- on every token before it.
    pub hashes-injective :
        (a b : List ℕ) (i j : ℕ) (h : Str)
        → get_elem? (hashes digest a size) i ≡ some h
        → get_elem? (hashes digest b size) j ≡ some h
        → (i ≡ j) × (take (suc i * size) a ≡ take (suc j * size) b)
    unfolding chain
    hashes-injective a b i j h p q =
        let (first, in_a) = hash_from-chain a size 0 (length a / size) i i h (omega arith) p in
        let (second, in_b) = hash_from-chain b size 0 (length b / size) j j h (omega arith) q in
        let (same, tokens) =
          chain-injective a b (suc i) (suc j)
            (le-mul_of_le-div (suc i) (length a) size positive in_a)
            (le-mul_of_le-div (suc j) (length b) size positive in_b) (sym first ∙ second) in
        (omega (arith, same), tokens)
