-- ===== src/Engine/Blocks/Usage.antt =====
-- The counts that llm_serve/engine/block_manager.py reports, against the owners of the blocks.
use llm_serve.Prelude.{
  ℕ, zero, suc, ◌+◌, ◌≤◌, ◌<◌, ◌≡◌, refl, List, [], ◌∷◌, ◌&&◌, length, hit, count, ltb, leb, ◌==◌,
  if◌then◌else◌, arith,
}
use llm_serve.Engine.Blocks.{BlockManager, num_used_blocks, num_free_blocks}
use llm_serve.Engine.Blocks.Pool.{Within, Within-tail, Within-head, free-Within}
use llm_serve.Engine.Blocks.Invariant.{owners, IsValid}

-- `f i + … + f (i + n - 1)`
sum_range : ℕ → ℕ → (ℕ → ℕ) → ℕ
sum_range i zero f = 0
sum_range i (suc n) f = f i + sum_range (suc i) n f

sum_range-add :
    (i n : ℕ) (f g : ℕ → ℕ) → sum_range i n (λ b. f b + g b) ≡ sum_range i n f + sum_range i n g
unfolding sum_range
sum_range-add i zero f g = refl
sum_range-add i (suc n) f g = omega (arith, sum_range-add (suc i) n f g)

sum_range-zero : (i n : ℕ) → sum_range i n (λ b. 0) ≡ 0
unfolding sum_range
sum_range-zero i zero = refl
sum_range-zero i (suc n) = omega (arith, sum_range-zero (suc i) n)

sum_range-hit :
    (x i n : ℕ) → sum_range i n (λ b. hit x b) ≡ (if leb i x && ltb x (i + n) then 1 else 0)
unfolding sum_range
sum_range-hit x i zero = ground arith
sum_range-hit x i (suc n) = ground (arith, sum_range-hit x (suc i) n)

sum_range_ones :
    (i n : ℕ) (f : ℕ → ℕ) → ((b : ℕ) → i ≤ b → b < i + n → f b ≡ 1) → sum_range i n f ≡ n
unfolding sum_range
sum_range_ones i zero f h = refl
sum_range_ones i (suc n) f h = omega (
  arith,
  h i (omega arith) (omega arith),
  sum_range_ones (suc i) n f (λ b p q. h b (omega arith) (omega arith)),
)

-- A list of numbers below `n` is as long as the sum of its multiplicities.
sum_range-count : (xs : List ℕ) (n : ℕ) → Within xs n → sum_range 0 n (λ b. count b xs) ≡ length xs
sum_range-count [] n w = sum_range-zero 0 n
sum_range-count (x ∷ xs) n w = ground (
  arith,
  sum_range-add 0 n (λ b. hit x b) (λ b. count b xs),
  sum_range-hit x 0 n,
  sum_range-count xs n (Within-tail x xs w),
  Within-head x xs w,
)

abbrev pub is_owned : (ℕ → ℕ) → ℕ → ℕ
is_owned own b = if own b == 0 then 0 else 1

-- How many of the first `n` blocks have an owner.
pub owned_blocks : ℕ → (ℕ → ℕ) → ℕ
owned_blocks n own = sum_range 0 n (is_owned own)

-- On a valid block manager `num_used_blocks` is the number of the blocks of the pool that a table
-- or a pin refers to, and the free and the used blocks are all blocks of the pool.
pub num_used_blocks-owned :
    (m : BlockManager) (pins : ℕ → ℕ)
    → IsValid m pins
    → (num_used_blocks m ≡ owned_blocks m.num_blocks (owners m pins))
      × (num_free_blocks m + num_used_blocks m ≡ m.num_blocks)
unfolding num_used_blocks num_free_blocks owned_blocks
num_used_blocks-owned m pins v =
    let own : ℕ → ℕ = is_owned (owners m pins) in
    let free : ℕ → ℕ = λ b. count b m.free_list in
    let within : Within m.free_list m.num_blocks =
      λ b h. omega (arith, free-Within v.pool b h, v.pool.sized) in
    let ones =
      sum_range_ones 0 m.num_blocks (λ b. free b + own b)
        (λ b p q. ground (arith, v.pool.free_iff b)) in
    let parts = sum_range-add 0 m.num_blocks free own in
    let size = sum_range-count m.free_list m.num_blocks within in
    (omega (arith, ones, parts, size), omega (arith, ones, parts, size))
