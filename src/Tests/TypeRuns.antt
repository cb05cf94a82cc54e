-- ===== src/Tests/TypeRuns.antt =====
-- The theorem on llm_serve/types.py at a concrete stream of chunks.
use llm_serve.Prelude.{ℕ, ◌-◌, ◌≡◌, some, none, List, [], ◌∷◌, map, length, codes}
use llm_serve.Types.{FinishReason, GenerationRequest, TokenChunk, init, add_all, finish}
use llm_serve.Types.Results.{spoken, last_reason, first_of, gaps, result, finish-add_all}

abbrev minus : ℕ → ℕ → ℕ
minus a b = a - b

abbrev request : GenerationRequest
request = record { request_id = codes "r"; prompt = codes "hello"; prompt_token_ids = none }

abbrev chunks : List (TokenChunk ℕ)
chunks =
    record {
      request_id = codes "r";
      index = 0;
      text = codes "a";
      token_id = none;
      finish_reason = none;
      timestamp = 5;
    }
    ∷ record {
      request_id = codes "r";
      index = 1;
      text = codes "b";
      token_id = none;
      finish_reason = none;
      timestamp = 9;
    }
    ∷ record {
      request_id = codes "r";
      index = 2;
      text = [];
      token_id = none;
      finish_reason = some FinishReason.length_limit;
      timestamp = 9;
    }
    ∷ []

finish-add_all_example :
    finish minus 12 (add_all minus chunks (init request 2))
    ≡ result minus request 2 12
        (map (λ c. c.text) (spoken chunks))
        (length (spoken chunks))
        (last_reason FinishReason.stop chunks)
        (first_of (spoken chunks))
        (gaps minus (spoken chunks))
finish-add_all_example = finish-add_all minus request 2 12 chunks
