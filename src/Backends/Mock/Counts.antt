-- ===== src/Backends/Mock/Counts.antt =====
-- llm_serve/backends/mock.py: a stream that nothing interferes with and no stop text ends.
use llm_serve.Prelude.{ℕ, ◌+◌, ◌≡◌, false, List, [], ◌∷◌, Str}
use llm_serve.Types.{TokenChunk}
use llm_serve.Api.Schemas.{ApiRequest}
use llm_serve.Backends.Mock.{MockBackend, stop_hits, token_chunk, text_at}

abbrev pub alone : ℕ → MockBackend → MockBackend
alone i m = m

module _ {Float Time : Type 0} (request : ApiRequest Float) (word : ℕ → Str) (token_id : Str → ℕ)
    (clock : ℕ → Time) where
  -- No text of the tokens, numbered from `i` on, holds a stop text.
  abbrev pub Unstopped : ℕ → List Str → Type 0
  Unstopped i [] = Unit
  Unstopped i (token ∷ tokens) =
      (stop_hits request.sampling.stop (text_at i token) ≡ false) × Unstopped (i + 1) tokens

  abbrev pub token_chunks : ℕ → List Str → List (TokenChunk Time)
  token_chunks i [] = []
  token_chunks i (token ∷ tokens) =
      token_chunk request word token_id clock alone i token (text_at i token)
      ∷ token_chunks (i + 1) tokens

  abbrev after : ℕ → MockBackend → MockBackend
  after n m = record m { generation_tokens = m.generation_tokens + n; completed = m.completed + 1 }
