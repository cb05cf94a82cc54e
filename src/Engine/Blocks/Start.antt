-- ===== src/Engine/Blocks/Start.antt =====
-- The constructor and `reset` of llm_serve/engine/block_manager.py.
use llm_serve.Prelude.{
  ℕ, zero, suc, ◌+◌, ◌*◌, ◌/◌, ◌<◌, ◌≡◌, refl, ap, [], ◌&&◌, length, count, held, lookup, replicate,
  length-replicate, get_or-replicate, ltb, leb, if◌then◌else◌, ok, arith,
}
use llm_serve.Engine.Blocks.{BlockManager, Ratio, init, reset, range_from}
use llm_serve.Engine.Blocks.Pool.{Pool}
use llm_serve.Engine.Blocks.Invariant.{IsValid}

count-range_from :
    (b i n : ℕ) → count b (range_from i n) ≡ (if leb i b && ltb b (i + n) then 1 else 0)
unfolding range_from
count-range_from b i zero = ground arith
count-range_from b i (suc n) = ground (arith, count-range_from b (suc i) n)

length-range_from : (i n : ℕ) → length (range_from i n) ≡ n
unfolding range_from
length-range_from i zero = refl
length-range_from i (suc n) = ap suc (length-range_from (suc i) n)

-- A pool with every block free.
start-Pool : (n : ℕ) → Pool n (range_from 0 n) (replicate n 0) (λ b. 0)
start-Pool n = record {
  sized = length-replicate n 0;
  counted = λ b. get_or-replicate n b 0;
  free_iff = λ b. ground (arith, count-range_from b 0 n);
}

-- `reset` of a block manager with a positive block size, whatever its state, gives a valid one
-- without pins that has every block free.
pub reset-IsValid :
    (m : BlockManager)
    → 0 < m.block_size
    → IsValid (reset m) (λ b. 0) × (length (reset m).free_list ≡ m.num_blocks)
unfolding reset held lookup
reset-IsValid m h = (
  record { positive = h; pool = start-Pool m.num_blocks; distinct = tt; fits = λ k. tt },
  length-range_from 0 m.num_blocks,
)

watermark-lt : (a b n : ℕ) → a < b → 0 < n → a * n / b < n
watermark-lt a b n h p = grind arith

abbrev pub fresh : ℕ → ℕ → Ratio → BlockManager
fresh block_size num_blocks w = record {
  block_size = block_size;
  num_blocks = num_blocks;
  watermark_blocks = w.num * num_blocks / w.den;
  free_list = range_from 0 num_blocks;
  ref_counts = replicate num_blocks 0;
  tables = [];
  lengths = [];
  total_allocations = 0;
  total_reused_blocks = 0;
}

-- The constructor accepts exactly the sizes from 1 and the watermarks below 1.
pub init-cases :
    (block_size num_blocks : ℕ) (w : Ratio) {m : BlockManager}
    → init block_size num_blocks w ≡ ok m
    → (0 < block_size) × (0 < num_blocks) × (w.num < w.den) × (fresh block_size num_blocks w ≡ m)
unfolding init
init-cases block_size num_blocks w e = ground arith

-- A block manager that the constructor returns is valid with no pins, has every block free, and
-- keeps fewer blocks in reserve than there are.
pub init-IsValid :
    (block_size num_blocks : ℕ) (w : Ratio) {m : BlockManager}
    → init block_size num_blocks w ≡ ok m
    → IsValid m (λ b. 0) × (length m.free_list ≡ num_blocks) × (m.watermark_blocks < num_blocks)
unfolding held lookup
init-IsValid block_size num_blocks w e =
    let (size, some_blocks, part, same) = init-cases block_size num_blocks w e in
    rw (← same) (
      record { positive = size; pool = start-Pool num_blocks; distinct = tt; fits = λ k. tt },
      length-range_from 0 num_blocks,
      watermark-lt w.num w.den num_blocks part some_blocks,
    )
