-- ===== src/Tests/BlockRuns.antt =====
-- The theorems on llm_serve/engine/block_manager.py at concrete pools.
use llm_serve.Prelude.{ℕ, ◌<◌, ◌≡◌, refl, [], ◌∷◌, ok, arith}
use llm_serve.Engine.Blocks.{BlockManager, Ratio, init, allocate}
use llm_serve.Engine.Blocks.Invariant.{IsValid}
use llm_serve.Engine.Blocks.Start.{init-IsValid, fresh}
use llm_serve.Engine.Blocks.Alloc.{Allocates, allocate-cases, allocate-IsValid}
use llm_serve.Engine.Blocks.Append.{Appends, append_tokens-cases}
use llm_serve.Engine.Blocks.Release.{Frees, free_lem}

abbrev watermark : Ratio
watermark = record { num = 1; den = 8 }

abbrev no_pins : ℕ → ℕ
no_pins b = 0

abbrev pool : BlockManager
pool = fresh 4 8 watermark

pool_starts : init 4 8 watermark ≡ ok pool
unfolding init
pool_starts = refl

pool-IsValid : IsValid pool no_pins
pool-IsValid = (init-IsValid 4 8 watermark pool_starts).0

-- The pool after a sequence took the blocks for six tokens.
abbrev used : BlockManager
used = (allocate (97 ∷ []) 6 [] pool).1

used-IsValid : IsValid used no_pins
used-IsValid =
    allocate-IsValid pool no_pins (97 ∷ []) 6 [] pool-IsValid (λ b h. absurd (omega arith))

size_positive : 0 < used.block_size
size_positive = used-IsValid.positive

allocate_example : Allocates used no_pins (98 ∷ []) 9 []
allocate_example =
    allocate-cases used no_pins (98 ∷ []) 9 [] used-IsValid (λ b h. absurd (omega arith))

append_tokens_example : Appends used no_pins (97 ∷ []) 3
append_tokens_example = append_tokens-cases used no_pins (97 ∷ []) 3 used-IsValid

free_example : Frees used no_pins (97 ∷ [])
free_example = free_lem used no_pins (97 ∷ []) used-IsValid
