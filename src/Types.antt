-- ===== src/Types.antt =====
-- llm_serve/types.py: token chunks, and the accumulator that folds them into a result. Times are
-- of any type with a subtraction.
use llm_serve.Prelude.{
  ℕ, ◌+◌, ◌/◌, max, Bool, true, false, Option, none, some, List, [], ◌∷◌, ◌++◌, length, Str,
  if◌then◌else◌,
}
pub mod Results
pub mod Sampling
pub mod Bounds

pub data FinishReason : Type 0 where
  stop length_limit abort error : FinishReason

-- The fields of a request that the accumulator reads.
pub record GenerationRequest : Type 0 where
  pub request_id : Str
  pub prompt : Str
  pub prompt_token_ids : Option (List ℕ)

abbrev tokens_or_estimate : Str → Option (List ℕ) → ℕ
tokens_or_estimate prompt none = max 1 (length prompt / 4)
tokens_or_estimate prompt (some ids) = length ids

unfoldable pub prompt_len : GenerationRequest → ℕ
prompt_len r = tokens_or_estimate r.prompt r.prompt_token_ids

abbrev pub is_empty : Str → Bool
is_empty [] = true
is_empty (c ∷ s) = false

-- `"".join(pieces)`
unfoldable pub join : List Str → Str
join [] = []
join (p ∷ ps) = p ++ join ps

pub record TokenChunk (Time : Type 0) : Type 0 where
  pub request_id : Str
  pub index : ℕ
  pub text : Str
  pub token_id : Option ℕ
  pub finish_reason : Option FinishReason
  pub timestamp : Time

pub record GenerationResult (Time : Type 0) : Type 0 where
  pub request_id : Str
  pub text : Str
  pub prompt_tokens : ℕ
  pub completion_tokens : ℕ
  pub finish_reason : FinishReason
  pub ttft_s : Option Time
  pub e2e_latency_s : Time
  pub inter_token_latencies_s : List Time
  pub cached_prompt_tokens : ℕ

pub record ResultAccumulator (Time : Type 0) : Type 0 where
  pub request : GenerationRequest
  pub start : Time
  pub pieces : List Str
  pub first_token_time : Option Time
  pub last_token_time : Option Time
  pub itls : List Time
  pub finish_reason : FinishReason
  pub n_tokens : ℕ
  pub cached_prompt_tokens : ℕ

module _ {Time : Type 0} where
  unfoldable pub is_final : TokenChunk Time → Bool
  is_final c = elim c.finish_reason [ none ↦ false | some r ↦ true ]

  unfoldable pub total_tokens : GenerationResult Time → ℕ
  total_tokens r = r.prompt_tokens + r.completion_tokens

  unfoldable pub init : GenerationRequest → Time → ResultAccumulator Time
  init request start = record {
    request = request;
    start = start;
    pieces = [];
    first_token_time = none;
    last_token_time = none;
    itls = [];
    finish_reason = FinishReason.stop;
    n_tokens = 0;
    cached_prompt_tokens = 0;
  }

  module _ (minus : Time → Time → Time) where
    -- The branches on the two times.
    abbrev timed :
        Option Time → Option Time → Time → ResultAccumulator Time → ResultAccumulator Time
    timed none last now a = record a { first_token_time = some now }
    timed (some first) none now a = a
    timed (some first) (some last) now a = record a { itls = a.itls ++ minus now last ∷ [] }

    abbrev with_text : TokenChunk Time → ResultAccumulator Time → ResultAccumulator Time
    with_text c a =
        let counted = record a { pieces = a.pieces ++ c.text ∷ []; n_tokens = a.n_tokens + 1 } in
        record (timed a.first_token_time a.last_token_time c.timestamp counted) {
          last_token_time = some c.timestamp;
        }

    abbrev pub with_reason : Option FinishReason → ResultAccumulator Time → ResultAccumulator Time
    with_reason none a = a
    with_reason (some r) a = record a { finish_reason = r }

    unfoldable pub add : TokenChunk Time → ResultAccumulator Time → ResultAccumulator Time
    add c a = with_reason c.finish_reason (if is_empty c.text then a else with_text c a)

    -- `ttft`
    abbrev pub since : Time → Option Time → Option Time
    since start none = none
    since start (some t) = some (minus t start)

    unfoldable pub finish : Time → ResultAccumulator Time → GenerationResult Time
    finish end_time a = record {
      request_id = a.request.request_id;
      text = join a.pieces;
      prompt_tokens = prompt_len a.request;
      completion_tokens = a.n_tokens;
      finish_reason = a.finish_reason;
      ttft_s = since a.start a.first_token_time;
      e2e_latency_s = minus end_time a.start;
      inter_token_latencies_s = a.itls;
      cached_prompt_tokens = a.cached_prompt_tokens;
    }

    -- The chunks of a stream, in order.
    unfoldable pub add_all :
        List (TokenChunk Time) → ResultAccumulator Time → ResultAccumulator Time
    add_all [] a = a
    add_all (c ∷ cs) a = add_all cs (add c a)
