-- ===== src/Engine/Blocks/Pool.antt =====
-- The pool behind llm_serve/engine/block_manager.py: the free list and the reference counts,
-- against the owners of the blocks.
use llm_serve.Prelude.{
  ℕ, ◌+◌, ◌-◌, ◌<◌, ◌≡◌, refl, ◌&&◌, List, [], ◌∷◌, length, get_or, take, drop, hit, count,
  count-take-drop, incr, decr, length-incr, length-decr, get_or-incr, get_or-decr, get_or_out, ltb,
  ◌==◌, if◌then◌else◌, arith,
}

-- `n` blocks, the free list, the reference counts, and how many owners each block has.
pub record Pool (n : ℕ) (free rc : List ℕ) (owners : ℕ → ℕ) : Type 0 where
  pub sized : length rc ≡ n
  pub counted : (b : ℕ) → get_or rc b 0 ≡ owners b
  pub free_iff : (b : ℕ) → count b free ≡ (if ltb b n && (owners b == 0) then 1 else 0)

abbrev pub incr_all : List ℕ → List ℕ → List ℕ
incr_all [] rc = rc
incr_all (b ∷ bs) rc = incr_all bs (incr rc b)

-- Every block of the list is below `n`.
abbrev pub Within : List ℕ → ℕ → Type 0
Within bs n = (b : ℕ) → 0 < count b bs → b < n

pub Within-head : (b : ℕ) (bs : List ℕ) {n : ℕ} → Within (b ∷ bs) n → b < n
Within-head b bs w = w b (ground arith)

pub Within-tail : (b : ℕ) (bs : List ℕ) {n : ℕ} → Within (b ∷ bs) n → Within bs n
Within-tail b bs w = λ c h. w c (omega arith)

pub length-incr_all : (bs rc : List ℕ) → length (incr_all bs rc) ≡ length rc
length-incr_all [] rc = refl
length-incr_all (b ∷ bs) rc = omega (arith, length-incr_all bs (incr rc b), length-incr rc b)

pub get_or-incr_all :
    (bs rc : List ℕ) (c : ℕ)
    → Within bs (length rc)
    → get_or (incr_all bs rc) c 0 ≡ get_or rc c 0 + count c bs
get_or-incr_all [] rc c w = omega arith
get_or-incr_all (b ∷ bs) rc c w = omega (
  arith,
  get_or-incr_all bs (incr rc b) c (λ d h. omega (arith, Within-tail b bs w d h, length-incr rc b)),
  get_or-incr rc b c (Within-head b bs w),
)

module _ {n : ℕ} {free rc : List ℕ} {owners : ℕ → ℕ} (p : Pool n free rc owners) where
  -- Only blocks of the pool have owners.
  pub owned-lt : (b : ℕ) → 0 < owners b → b < n
  owned-lt b h = ground (arith, p.sized, p.counted b, get_or_out rc b)

  pub owned-Within :
      (bs : List ℕ) → ((b : ℕ) → 0 < count b bs → 0 < owners b) → Within bs (length rc)
  owned-Within bs h = λ b c. omega (arith, owned-lt b (h b c), p.sized)

  pub free-Within : Within free (length rc)
  free-Within = λ b c. ground (arith, p.free_iff b, p.sized)

  pub Pool-ext : {o : ℕ → ℕ} → ((b : ℕ) → owners b ≡ o b) → Pool n free rc o
  Pool-ext e = record {
    sized = p.sized;
    counted = λ b. omega (arith, p.counted b, e b);
    free_iff = λ b. ground (arith, p.free_iff b, e b);
  }

  -- The first `k` free blocks get an owner each.
  pub Pool-claim :
      (k : ℕ)
      → Pool n (drop k free) (incr_all (take k free) rc) (λ b. owners b + count b (take k free))
  Pool-claim k = record {
    sized = omega (arith, p.sized, length-incr_all (take k free) rc);
    counted = λ b. omega (
      arith,
      p.counted b,
      get_or-incr_all (take k free) rc b
          (λ c h. free-Within c (omega (arith, count-take-drop c k free))),
    );
    free_iff = λ b. ground (arith, p.free_iff b, count-take-drop b k free);
  }

  -- Blocks that are owned get one owner more.
  pub Pool-adopt :
      (bs : List ℕ)
      → ((b : ℕ) → 0 < count b bs → 0 < owners b)
      → Pool n free (incr_all bs rc) (λ b. owners b + count b bs)
  Pool-adopt bs h = record {
    sized = omega (arith, p.sized, length-incr_all bs rc);
    counted = λ b. omega (arith, p.counted b, get_or-incr_all bs rc b (owned-Within bs h));
    free_iff = λ b. ground (arith, p.free_iff b, h b);
  }

  -- A block loses an owner and keeps others.
  pub Pool-release : (b : ℕ) → 1 < owners b → Pool n free (decr rc b) (λ c. owners c - hit b c)
  Pool-release b h = record {
    sized = omega (arith, p.sized, length-decr rc b);
    counted = λ c. omega (arith, p.counted c, get_or-decr rc b c);
    free_iff = λ c. ground (arith, p.free_iff c);
  }

  -- A block loses its last owner.
  pub Pool-release_last :
      (b : ℕ) → owners b ≡ 1 → Pool n (b ∷ free) (decr rc b) (λ c. owners c - hit b c)
  Pool-release_last b h = record {
    sized = omega (arith, p.sized, length-decr rc b);
    counted = λ c. omega (arith, p.counted c, get_or-decr rc b c);
    free_iff = λ c. ground (arith, p.free_iff c, p.free_iff b, owned-lt b);
  }
