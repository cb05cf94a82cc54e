-- ===== src/Types/Results.antt =====
-- The result that llm_serve/types.py accumulates, described by the whole list of chunks.
use llm_serve.Prelude.{
  ℕ, suc, ◌+◌, ◌≡◌, refl, ap, ◌∙◌, sym, Option, none, some, List, [], ◌∷◌, ◌++◌, map, append_assoc,
  length, Str, if◌then◌else◌, Bool-cases, inl, inr, arith,
}
use llm_serve.Types.{
  FinishReason, GenerationRequest, GenerationResult, ResultAccumulator, TokenChunk, prompt_len,
  is_empty, join, init, add, add_all, finish, since, with_reason,
}

append_nothing {ℓ} : {A : Type ℓ} (xs : List A) → xs ++ [] ≡ xs
append_nothing [] = refl
append_nothing (x ∷ xs) = ap (◌∷◌ x) (append_nothing xs)

plus_none : (n : ℕ) → n ≡ n + 0
plus_none n = omega arith

plus_one : (n k : ℕ) → n + 1 + k ≡ n + suc k
plus_one n k = omega arith

one_more : (k : ℕ) → 0 + 1 + k ≡ suc k
one_more k = omega arith

-- The reason after a chunk.
abbrev pub next_reason : FinishReason → Option FinishReason → FinishReason
next_reason r none = r
next_reason r (some x) = x

module _ {Time : Type 0} where
  -- The chunks that carry text.
  unfoldable pub spoken : List (TokenChunk Time) → List (TokenChunk Time)
  spoken [] = []
  spoken (c ∷ cs) = let rest = spoken cs in if is_empty c.text then rest else c ∷ rest

  -- The last reason that a chunk gives, or the default.
  unfoldable pub last_reason : FinishReason → List (TokenChunk Time) → FinishReason
  last_reason r [] = r
  last_reason r (c ∷ cs) = last_reason (next_reason r c.finish_reason) cs

  abbrev pub first_of : List (TokenChunk Time) → Option Time
  first_of [] = none
  first_of (c ∷ cs) = some c.timestamp

  module _ (minus : Time → Time → Time) where
    -- The times between neighbours.
    pub gaps : List (TokenChunk Time) → List Time
    gaps [] = []
    gaps (c ∷ []) = []
    gaps (c ∷ d ∷ cs) = minus d.timestamp c.timestamp ∷ gaps (d ∷ cs)

    module _ (request : GenerationRequest) (start end_time : Time) where
      -- A result over the pieces, their number, the last reason, the first time and the gaps.
      abbrev pub result :
          List Str → ℕ → FinishReason → Option Time → List Time → GenerationResult Time
      result pieces n reason first itls = record {
        request_id = request.request_id;
        text = join pieces;
        prompt_tokens = prompt_len request;
        completion_tokens = n;
        finish_reason = reason;
        ttft_s = since minus start first;
        e2e_latency_s = minus end_time start;
        inter_token_latencies_s = itls;
        cached_prompt_tokens = 0;
      }

      -- The accumulator in the middle of a stream.
      abbrev midway :
          List Str
          → ℕ
          → FinishReason
          → Option Time
          → Option Time
          → List Time
          → ResultAccumulator Time
      midway pieces n reason first last itls = record {
        request = request;
        start = start;
        pieces = pieces;
        first_token_time = first;
        last_token_time = last;
        itls = itls;
        finish_reason = reason;
        n_tokens = n;
        cached_prompt_tokens = 0;
      }

      with_reason-midway :
          (o : Option FinishReason) (pieces : List Str) (n : ℕ) (reason : FinishReason)
          (first last : Option Time) (itls : List Time)
          → with_reason minus o (midway pieces n reason first last itls)
            ≡ midway pieces n (next_reason reason o) first last itls
      with_reason-midway none pieces n reason first last itls = refl
      with_reason-midway (some x) pieces n reason first last itls = refl

      -- The rest of a stream after the chunk `l` with text.
      finish-rest :
          (cs : List (TokenChunk Time)) (l : TokenChunk Time) (pieces : List Str) (n : ℕ)
          (reason : FinishReason) (first : Time) (itls : List Time)
          → finish minus end_time
              (add_all minus cs (midway pieces n reason (some first) (some l.timestamp) itls))
            ≡ result
                (pieces ++ map (λ c. c.text) (spoken cs))
                (n + length (spoken cs))
                (last_reason reason cs)
                (some first)
                (itls ++ gaps (l ∷ spoken cs))
      unfolding finish add_all add spoken last_reason gaps
      finish-rest [] l pieces n reason first itls = λ i.
          result (sym (append_nothing pieces) i) (plus_none n i) reason (some first)
            (sym (append_nothing itls) i)
      finish-rest (c ∷ cs) l pieces n reason first itls =
          let next = next_reason reason c.finish_reason in
          let gap = minus c.timestamp l.timestamp in
          elim (Bool-cases (is_empty c.text)) [
            | inl e ↦
                rw (add_all, e)
                  (ap (λ a. finish minus end_time (add_all minus cs a))
                      (with_reason-midway c.finish_reason pieces n reason (some first)
                        (some l.timestamp) itls)
                    ∙ finish-rest cs l pieces n next first itls)
            | inr e ↦
                rw (add_all, e)
                  (ap (λ a. finish minus end_time (add_all minus cs a))
                      (with_reason-midway c.finish_reason (pieces ++ c.text ∷ []) (n + 1) reason
                        (some first) (some c.timestamp) (itls ++ gap ∷ []))
                    ∙ finish-rest cs c (pieces ++ c.text ∷ []) (n + 1) next first (itls ++ gap ∷ [])
                    ∙ (λ i.
                        result (append_assoc pieces (c.text ∷ []) (map (λ d. d.text) (spoken cs)) i)
                          (plus_one n (length (spoken cs)) i) (last_reason next cs) (some first)
                          (append_assoc itls (gap ∷ []) (gaps (c ∷ spoken cs)) i)))
          ]

      -- The rest of a stream before any chunk with text.
      finish-silent :
          (cs : List (TokenChunk Time)) (reason : FinishReason)
          → finish minus end_time (add_all minus cs (midway [] 0 reason none none []))
            ≡ result
                (map (λ c. c.text) (spoken cs))
                (length (spoken cs))
                (last_reason reason cs)
                (first_of (spoken cs))
                (gaps (spoken cs))
      unfolding finish add_all add spoken last_reason gaps
      finish-silent [] reason = refl
      finish-silent (c ∷ cs) reason =
          let next = next_reason reason c.finish_reason in
          elim (Bool-cases (is_empty c.text)) [
            | inl e ↦
                rw (add_all, e)
                  (ap (λ a. finish minus end_time (add_all minus cs a))
                      (with_reason-midway c.finish_reason [] 0 reason none none [])
                    ∙ finish-silent cs next)
            | inr e ↦
                rw (add_all, e)
                  (ap (λ a. finish minus end_time (add_all minus cs a))
                      (with_reason-midway c.finish_reason (c.text ∷ []) (0 + 1) reason
                        (some c.timestamp) (some c.timestamp) [])
                    ∙ finish-rest cs c (c.text ∷ []) (0 + 1) next c.timestamp []
                    ∙ (λ i.
                        result (c.text ∷ map (λ d. d.text) (spoken cs))
                          (one_more (length (spoken cs)) i) (last_reason next cs) (some c.timestamp)
                          (gaps (c ∷ spoken cs))))
          ]

      -- The result of an accumulator that read a list of chunks is that of the whole list: the
      -- texts of the chunks with text are joined and counted, the time to the first token is that
      -- of the first of them, the latencies between tokens are the differences between neighbours
      -- of them, and the reason is the last one that any chunk gives, or `stop`. Times are of any
      -- type with a subtraction.
      pub finish-add_all :
          (cs : List (TokenChunk Time))
          → finish minus end_time (add_all minus cs (init request start))
            ≡ result
                (map (λ c. c.text) (spoken cs))
                (length (spoken cs))
                (last_reason FinishReason.stop cs)
                (first_of (spoken cs))
                (gaps (spoken cs))
      unfolding init
      finish-add_all cs = finish-silent cs FinishReason.stop
