-- ===== src/Engine/Blocks/Pins.antt =====
-- `pin` and `unpin` of llm_serve/engine/block_manager.py: references from outside the tables.
use llm_serve.Prelude.{
  ℕ, ◌+◌, ◌-◌, ◌<◌, ◌≡◌, [], ◌∷◌, hit, incr, decr, ◌==◌, if◌then◌else◌, block_allocation_error, ok,
  err, arith,
}
use llm_serve.Engine.Blocks.{BlockManager, pin, unpin, blocks_for_tokens}
use llm_serve.Engine.Blocks.Pool.{Pool-ext, Pool-adopt, owned-lt}
use llm_serve.Engine.Blocks.Invariant.{owners, IsValid}
use llm_serve.Engine.Blocks.Release.{release_block_lem, release_block-Pool}

abbrev pub pinned : BlockManager → ℕ → BlockManager
pinned m b = record m { ref_counts = incr m.ref_counts b }

module _ (m : BlockManager) (pins : ℕ → ℕ) (b : ℕ) (v : IsValid m pins) where
  pub pin_ok : 0 < owners m pins b → pin b m ≡ (ok tt, pinned m b)
  unfolding pin
  pin_ok h = ground (arith, v.pool.sized, v.pool.counted b, owned-lt v.pool b)

  pub pinned-IsValid : 0 < owners m pins b → IsValid (pinned m b) (λ c. pins c + hit b c)
  unfolding blocks_for_tokens
  pinned-IsValid h = record {
    positive = v.positive;
    pool = Pool-ext (Pool-adopt v.pool (b ∷ []) (λ c k. ground arith)) (λ c. omega arith);
    distinct = v.distinct;
    fits = v.fits;
  }

  -- A block with no owner is not pinned.
  pub pin_free : owners m pins b ≡ 0 → pin b m ≡ (err block_allocation_error, m)
  unfolding pin
  pin_free h = ground (arith, v.pool.sized, v.pool.counted b)

  -- The free list after a pin on `b` was dropped.
  abbrev pub unpinned : BlockManager
  unpinned = record m {
    free_list = if owners m pins b == 1 then b ∷ m.free_list else m.free_list;
    ref_counts = decr m.ref_counts b;
  }

  -- A pin can always be dropped; the block is free again if that was its last owner.
  pub unpin_ok : 0 < pins b → unpin b m ≡ (ok (owners m pins b == 1), unpinned)
  unfolding unpin
  unpin_ok h = release_block_lem m v.pool b (omega arith)

  pub unpinned-IsValid : 0 < pins b → IsValid unpinned (λ c. pins c - hit b c)
  unfolding blocks_for_tokens
  unpinned-IsValid h = record {
    positive = v.positive;
    pool = Pool-ext (release_block-Pool m v.pool b (omega arith)) (λ c. ground arith);
    distinct = v.distinct;
    fits = v.fits;
  }
