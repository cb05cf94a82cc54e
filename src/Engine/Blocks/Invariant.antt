-- ===== src/Engine/Blocks/Invariant.antt =====
-- The invariant of the block manager of llm_serve/engine/block_manager.py.
use llm_serve.Prelude.{
  ℕ, ◌+◌, ◌*◌, ◌≤◌, ◌<◌, ◌≡◌, Option, none, some, List, length, count, Str, lookup, held,
  DistinctKeys, arith,
}
use llm_serve.Engine.Blocks.{BlockManager, blocks_for_tokens}
use llm_serve.Engine.Blocks.Pool.{Pool}

-- A sequence has both a table and a length or neither, and its table has the blocks that hold its
-- tokens.
abbrev pub Fits : BlockManager → Option (List ℕ) → Option ℕ → Type 0
Fits m none none = Unit
Fits m (some t) (some n) = length t ≡ blocks_for_tokens m n
Fits m _ _ = ⊥

-- The owners of a block: the places where the tables hold it, and the pins on it.
abbrev pub owners : BlockManager → (ℕ → ℕ) → ℕ → ℕ
owners m pins b = count b (held m.tables) + pins b

-- `pins b` is how many references outside the tables there are to block `b`.
pub record IsValid (m : BlockManager) (pins : ℕ → ℕ) : Type 0 where
  pub positive : 0 < m.block_size
  pub pool : Pool m.num_blocks m.free_list m.ref_counts (owners m pins)
  pub distinct : DistinctKeys m.tables
  pub fits : (k : Str) → Fits m (lookup k m.tables) (lookup k m.lengths)

-- With a positive block size, `blocks_for_tokens n` blocks hold `n` tokens, and they exceed `n`
-- tokens by less than one block.
pub blocks_for_tokens_bounds :
    (m : BlockManager) (n : ℕ)
    → 0 < m.block_size
    → (n ≤ blocks_for_tokens m n * m.block_size)
      × (blocks_for_tokens m n * m.block_size < n + m.block_size)
unfolding blocks_for_tokens
blocks_for_tokens_bounds m n h = grind arith

pub reused-le :
    (m : BlockManager) (r n : ℕ)
    → 0 < m.block_size
    → r * m.block_size ≤ n
    → r ≤ blocks_for_tokens m n
unfolding blocks_for_tokens
reused-le m r n h k = grind arith

le_of_mul-lt : (x y k : ℕ) → x * k < y * k + k → x ≤ y
le_of_mul-lt x y k h = grind arith

pub blocks_for_tokens_mono :
    (m : BlockManager) (a b : ℕ)
    → 0 < m.block_size
    → a ≤ b
    → blocks_for_tokens m a ≤ blocks_for_tokens m b
blocks_for_tokens_mono m a b pos h =
    let low = blocks_for_tokens_bounds m b pos in
    let high = blocks_for_tokens_bounds m a pos in le_of_mul-lt _ _ m.block_size (omega arith)
