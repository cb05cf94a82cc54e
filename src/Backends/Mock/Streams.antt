-- ===== src/Backends/Mock/Streams.antt =====
-- llm_serve/backends/mock.py: the chunks of a stream, whatever other tasks do.
use llm_serve.Prelude.{
  ℕ, zero, suc, ◌+◌, ◌≤◌, ◌≡◌, ◌≢◌, refl, ◌⊎◌, true, false, none, some, List, [], ◌∷◌, ◌++◌, All,
  length, Str, arith, Error, ok, err, value_error, type_error,
}
use llm_serve.Types.{FinishReason, TokenChunk}
use llm_serve.Api.Schemas.{ApiRequest}
use llm_serve.Backends.Mock.{MockBackend, token_count, picked, encodes, seeds, tokens_for, Streamed}

pub length-picked : (word : ℕ → Str) (i n : ℕ) → length (picked word i n) ≡ n
unfolding picked
length-picked word i zero = refl
length-picked word i (suc n) = omega (arith, length-picked word (i + 1) n)

module _ {Time : Type 0} where
  -- Chunks numbered from `i` on, none of them final.
  abbrev pub Numbered : ℕ → List (TokenChunk Time) → Type 0
  Numbered i [] = Unit
  Numbered i (c ∷ cs) = (c.index ≡ i) × (c.finish_reason ≡ none) × Numbered (i + 1) cs

  -- A stream of at most `n` numbered chunks and a last one, which has no text and gives a reason.
  pub record IsStream (i n : ℕ) (chunks : List (TokenChunk Time)) : Type 0 where
    pub body : List (TokenChunk Time)
    pub last : TokenChunk Time
    pub reason : FinishReason
    pub parts : chunks ≡ body ++ last ∷ []
    pub numbered : Numbered i body
    pub few : length body ≤ n
    pub last_index : last.index ≡ i + length body
    pub last_text : last.text ≡ []
    pub last_reason : last.finish_reason ≡ some reason
    pub no_error : reason ≢ FinishReason.error

  pub Numbered-plain :
      (i : ℕ) (cs : List (TokenChunk Time)) → Numbered i cs → All (λ c. c.finish_reason ≡ none) cs
  Numbered-plain i [] h = tt
  Numbered-plain i (c ∷ cs) h = (h.1, Numbered-plain (i + 1) cs h.2)

module _ {Float Time : Type 0} (request : ApiRequest Float) (word : ℕ → Str) (token_id : Str → ℕ)
    (clock : ℕ → Time) (others : ℕ → MockBackend → MockBackend) where
  -- The prompt or the seed is refused.
  abbrev pub Refused : Error → Type 0
  Refused e =
      ((encodes request.request.prompt ≡ false) × (e ≡ value_error))
      ⊎ ((encodes request.request.prompt ≡ true)
          × (seeds request.sampling.seed ≡ false)
          × (e ≡ type_error))

  -- A stream to its end, or an exception before the first chunk.
  abbrev pub Streams : Streamed Time → Type 0
  Streams run =
      ((encodes request.request.prompt ≡ true)
        × (seeds request.sampling.seed ≡ true)
        × (run.outcome ≡ ok tt)
        × IsStream 0 (token_count request.sampling.max_tokens) run.chunks)
      ⊎ ((e : Error) × Refused e × (run.outcome ≡ err e) × (run.chunks ≡ []))

  pub tokens_for-ok :
      encodes request.request.prompt ≡ true
      → seeds request.sampling.seed ≡ true
      → tokens_for word request ≡ ok (picked word 0 (token_count request.sampling.max_tokens))
  unfolding tokens_for
  tokens_for-ok h k = rw h (rw k refl)
