-- ===== src/Api/App/Streams.antt =====
-- llm_serve/api/app.py: what a client reads of a stream, and what is recorded of it.
use llm_serve.Prelude.{
  ◌≡◌, refl, sym, ap, ◌∙◌, Bool, true, false, none, some, List, [], ◌∷◌, ◌++◌, append_assoc,
  append-nil, map, All, length, Str, codes, str_eq, ℤ, Bool-cases, inl, inr,
}
use llm_serve.Values.{Value}
use llm_serve.Types.{
  FinishReason, GenerationRequest, TokenChunk, ResultAccumulator, is_empty, join, init, add,
  add_all, finish,
}
use llm_serve.Types.Results.{
  spoken, last_reason, next_reason, first_of, gaps, result, finish-add_all,
}
use llm_serve.Api.Sse.{done_event, done, split_lines, iter_sse, parse_sse_stream, json_texts}
use llm_serve.Api.Sse.Frames.{IsKept}
use llm_serve.Api.Sse.Streams.{parse-iter_sse, json_texts-iter_sse}
use llm_serve.Api.Schemas.{ApiRequest}
use llm_serve.Api.App.{finished, frame, piece, chunk_payloads, opening, relay, stream_completion}

-- A JSON text that a frame keeps as it is: no line of it begins with a space, and it is not the end mark.
abbrev pub IsJsonText : Str → Type 0
IsJsonText p = All IsKept (split_lines p) × (str_eq p done ≡ false)

texts-IsKept : (ps : List Str) → All IsJsonText ps → All (λ p. All IsKept (split_lines p)) ps
texts-IsKept [] h = tt
texts-IsKept (p ∷ ps) h = (h.0.0, texts-IsKept ps h.1)

texts-NoSentinel : (ps : List Str) → All IsJsonText ps → All (λ p. str_eq p done ≡ false) ps
texts-NoSentinel [] h = tt
texts-NoSentinel (p ∷ ps) h = (h.0.1, texts-NoSentinel ps h.1)

join-append : (xs ys : List Str) → join (xs ++ ys) ≡ join xs ++ join ys
unfolding join
join-append [] ys = refl
join-append (x ∷ xs) ys = rw (join-append xs ys) (sym (append_assoc x (join xs) (join ys)))

module _ {Time : Type 0} where
  -- Chunks with no reason, and the last one, which has no text.
  spoken-append_silent :
      (cs : List (TokenChunk Time)) (last : TokenChunk Time)
      → last.text ≡ []
      → spoken (cs ++ last ∷ []) ≡ spoken cs
  unfolding spoken
  spoken-append_silent [] last h = rw h refl
  spoken-append_silent (c ∷ cs) last h = rw (spoken-append_silent cs last h) refl

  last_reason-append :
      (cs : List (TokenChunk Time)) (default reason : FinishReason) (last : TokenChunk Time)
      → last.finish_reason ≡ some reason
      → last_reason default (cs ++ last ∷ []) ≡ reason
  unfolding last_reason
  last_reason-append [] default reason last h = rw h refl
  last_reason-append (c ∷ cs) default reason last h =
      last_reason-append cs (next_reason default c.finish_reason) reason last h

  finish-stream :
      (minus : Time → Time → Time) (request : GenerationRequest) (start end_time : Time)
      (cs : List (TokenChunk Time)) (last : TokenChunk Time) (reason : FinishReason)
      → last.text ≡ []
      → last.finish_reason ≡ some reason
      → finish minus end_time (add_all minus (cs ++ last ∷ []) (init request start))
        ≡ result minus request start end_time
            (map (λ c. c.text) (spoken cs))
            (length (spoken cs))
            reason
            (first_of (spoken cs))
            (gaps minus (spoken cs))
  finish-stream minus request start end_time cs last reason t r =
      let all : List (TokenChunk Time) = cs ++ last ∷ [] in
      finish-add_all minus request start end_time all
      ∙ ap
          (λ xs.
            result minus request start end_time (map (λ c. c.text) xs) (length xs)
              (last_reason FinishReason.stop all) (first_of xs) (gaps minus xs))
          (spoken-append_silent cs last t)
      ∙ ap
          (λ x.
            result minus request start end_time (map (λ c. c.text) (spoken cs)) (length (spoken cs))
              x (first_of (spoken cs)) (gaps minus (spoken cs)))
          (last_reason-append cs FinishReason.stop reason last r)

module _ {Float : Type 0} (dumps : Value Float → Str) where
  -- Frames in a row and the last one are a stream of payloads.
  join-frames :
      (ps : List (Value Float))
      → join (map (frame dumps) ps ++ done_event ∷ []) ≡ iter_sse (map dumps ps) true
  unfolding join iter_sse
  join-frames [] = append-nil done_event
  join-frames (p ∷ ps) = ap (λ s. frame dumps p ++ s) (join-frames ps)

  frames-append :
      (xs ys : List (Value Float))
      → map (frame dumps) (xs ++ ys) ≡ map (frame dumps) xs ++ map (frame dumps) ys
  frames-append [] ys = refl
  frames-append (x ∷ xs) ys = ap (λ zs. frame dumps x ∷ zs) (frames-append xs ys)

module _ {Float Time : Type 0} (chat : Bool) (request : ApiRequest Float) (created : ℤ) where
  all_payloads : List (TokenChunk Time) → List (Value Float)
  all_payloads [] = []
  all_payloads (c ∷ cs) = chunk_payloads chat request created c ++ all_payloads cs

  module _ (dumps : Value Float → Str) (minus : Time → Time → Time) where
    relay_lem :
        (cs : List (TokenChunk Time)) (ps : List (Value Float)) (a : ResultAccumulator Time)
        → relay dumps minus chat request created cs (map (frame dumps) ps, a)
          ≡ (map (frame dumps) (ps ++ all_payloads cs), add_all minus cs a)
    unfolding relay all_payloads add_all
    relay_lem [] ps a = rw (append-nil ps) refl
    relay_lem (c ∷ cs) ps a =
        let here : List (Value Float) = chunk_payloads chat request created c in
        ap (λ fs. relay dumps minus chat request created cs (fs, add minus c a))
          (sym (frames-append dumps ps here))
        ∙ relay_lem cs (ps ++ here) (add minus c a)
        ∙ ap (λ qs. (map (frame dumps) qs, add_all minus cs (add minus c a)))
            (append_assoc ps here (all_payloads cs))

  -- What a client should read of the chunks `cs` with a last one that gives the reason.
  abbrev pub contents : List (TokenChunk Time) → FinishReason → List (Value Float)
  contents cs reason =
      map (λ c. piece chat request created c.text none) (spoken cs)
      ++ piece chat request created [] (some reason) ∷ []

  all_payloads-stream :
      (cs : List (TokenChunk Time)) (last : TokenChunk Time) (reason : FinishReason)
      → All (λ c. c.finish_reason ≡ none) cs
      → last.text ≡ []
      → last.finish_reason ≡ some reason
      → all_payloads (cs ++ last ∷ []) ≡ contents cs reason
  unfolding all_payloads spoken chunk_payloads
  all_payloads-stream [] last reason h t r = rw t (rw r refl)
  all_payloads-stream (c ∷ cs) last reason h t r = rw h.0 (
      rw (all_payloads-stream cs last reason h.1 t r)
        (elim (Bool-cases (is_empty c.text)) [ inl e ↦ rw e refl | inr e ↦ rw e refl ]))

  -- If the backend streams chunks without a reason and then one without text that gives a reason,
  -- and the JSON texts of the payloads are such as a frame keeps, then a client reads from the
  -- frames of `stream_completion`: in a chat the payload that names the role, one payload for each
  -- text that is not empty, in order, the payload of the reason, and then the end mark, which
  -- `parse_sse_json` leaves out; and exactly one result is recorded, as `ok`, whose text, token
  -- count, times and reason are those of the same chunks.
  pub stream_completion-Reads :
      (dumps : Value Float → Str) (minus : Time → Time → Time) (start end_time : Time)
      (cs : List (TokenChunk Time)) (last : TokenChunk Time) (reason : FinishReason)
      → All (λ c. c.finish_reason ≡ none) cs
      → last.text ≡ []
      → last.finish_reason ≡ some reason
      → All IsJsonText (map dumps (opening chat request created ++ contents cs reason))
      → (parse_sse_stream (
            join
              (stream_completion dumps minus chat request created start
                (record { chunks = cs ++ last ∷ []; ending = finished })
                end_time).frames)
          ≡ map dumps (opening chat request created ++ contents cs reason) ++ done ∷ [])
        × (json_texts (
              parse_sse_stream (
                join
                  (stream_completion dumps minus chat request created start
                    (record { chunks = cs ++ last ∷ []; ending = finished })
                    end_time).frames))
            ≡ map dumps (opening chat request created ++ contents cs reason))
        × ((stream_completion dumps minus chat request created start
              (record { chunks = cs ++ last ∷ []; ending = finished })
              end_time).observed
            ≡ (
              result minus request.request start end_time
                  (map (λ c. c.text) (spoken cs))
                  (length (spoken cs))
                  reason
                  (first_of (spoken cs))
                  (gaps minus (spoken cs)),
              codes "ok",
            )
              ∷ [])
  unfolding stream_completion
  stream_completion-Reads dumps minus start end_time cs last reason h t r texts =
      let ps : List (Value Float) = opening chat request created ++ contents cs reason in
      let sent =
        relay_lem dumps minus (cs ++ last ∷ []) (opening chat request created)
          (init request.request start)
        ∙ ap
            (λ qs. (
              map (frame dumps) (opening chat request created ++ qs),
              add_all minus (cs ++ last ∷ []) (init request.request start),
            ))
            (all_payloads-stream cs last reason h t r) in
      (
        ap (λ q. parse_sse_stream (join (q.0 ++ done_event ∷ []))) sent
            ∙ ap parse_sse_stream (join-frames dumps ps)
            ∙ parse-iter_sse (map dumps ps) true (texts-IsKept (map dumps ps) texts),
        ap (λ q. json_texts (parse_sse_stream (join (q.0 ++ done_event ∷ [])))) sent
            ∙ ap (λ s. json_texts (parse_sse_stream s)) (join-frames dumps ps)
            ∙ json_texts-iter_sse (map dumps ps) true (texts-IsKept (map dumps ps) texts)
                (texts-NoSentinel (map dumps ps) texts),
        ap (λ q. (finish minus end_time q.1, codes "ok") ∷ []) sent
            ∙ ap (λ g. (g, codes "ok") ∷ [])
                (finish-stream minus request.request start end_time cs last reason t r),
      )
