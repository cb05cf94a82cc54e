-- ===== src/Api/Sse/Streams.antt =====
-- Whole streams of llm_serve/api/sse.py, framed and parsed.
use llm_serve.Prelude.{
  ℕ, ◌≡◌, refl, ap, ◌∙◌, Bool, true, false, Option, none, List, [], ◌∷◌, ◌++◌, map, Str, All,
  if◌then◌else◌, str_eq,
}
use llm_serve.Api.Sse.{
  join_lines, is_space, data_lines, starts_with, done, split_lines, strip_left, format_sse,
  done_event, iter_sse, parse_sse_stream, split_blocks, split_from, is_blank, parse_blocks,
  json_texts,
}
use llm_serve.Api.Sse.Frames.{IsHeader, IsKept, parse_frame}

-- The arguments of one call of `format_sse`.
pub record Event : Type 0 where
  pub payload : Str
  pub event : Option Str
  pub retry_ms : Option ℕ

abbrev pub stream : List Event → Str
stream [] = []
stream (e ∷ es) = format_sse e.payload e.event e.retry_ms ++ stream es

abbrev pub payload : Event → Str
payload e = e.payload

-- The event name is a line, and no line of the payload begins with a space.
abbrev pub IsFramed : Event → Type 0
IsFramed e = IsHeader e.event × All IsKept (split_lines e.payload)

parse-empty : parse_sse_stream [] ≡ []
unfolding parse_sse_stream split_blocks split_from parse_blocks is_blank
parse-empty = refl

-- `parse_sse_stream` of frames that `format_sse` made, one after another, gives back their
-- payloads in order, whatever newlines the payloads hold, if no event name holds a newline and no
-- line of a payload is changed by `lstrip` of spaces.
pub parse_sse_stream-format_sse :
    (es : List Event) → All IsFramed es → parse_sse_stream (stream es) ≡ map payload es
parse_sse_stream-format_sse [] h = parse-empty
parse_sse_stream-format_sse (e ∷ es) h =
    parse_frame e.payload e.event e.retry_ms (stream es) h.0.0 h.0.1
    ∙ ap (◌∷◌ e.payload) (parse_sse_stream-format_sse es h.1)

parse-done : parse_sse_stream done_event ≡ done ∷ []
unfolding done_event format_sse split_lines join_lines parse_sse_stream split_blocks split_from
    parse_blocks is_blank is_space data_lines starts_with strip_left
parse-done = refl

-- The payloads of JSON texts: none of them is the sentinel.
json_texts-append :
    (ps qs : List Str)
    → All (λ p. str_eq p done ≡ false) ps
    → json_texts (ps ++ qs) ≡ ps ++ json_texts qs
unfolding json_texts
json_texts-append [] qs h = refl
json_texts-append (p ∷ ps) qs h = rw h.0 (ap (◌∷◌ p) (json_texts-append ps qs h.1))

pub parse-iter_sse :
    (ps : List Str) (send_done : Bool)
    → All (λ p. All IsKept (split_lines p)) ps
    → parse_sse_stream (iter_sse ps send_done) ≡ ps ++ (if send_done then done ∷ [] else [])
unfolding iter_sse
parse-iter_sse [] true h = parse-done
parse-iter_sse [] false h = parse-empty
parse-iter_sse (p ∷ ps) send_done h =
    parse_frame p none none (iter_sse ps send_done) tt h.0
    ∙ ap (◌∷◌ p) (parse-iter_sse ps send_done h.1)

append-nothing : (ps : List Str) → ps ++ [] ≡ ps
append-nothing [] = refl
append-nothing (p ∷ ps) = ap (◌∷◌ p) (append-nothing ps)

-- The texts that `parse_sse_json` reads from the stream of `iter_sse`, with or without the
-- sentinel at its end, are those that were framed, if none of them is the sentinel and no line of
-- them is changed by `lstrip` of spaces.
pub json_texts-iter_sse :
    (ps : List Str) (send_done : Bool)
    → All (λ p. All IsKept (split_lines p)) ps
    → All (λ p. str_eq p done ≡ false) ps
    → json_texts (parse_sse_stream (iter_sse ps send_done)) ≡ ps
unfolding json_texts str_eq
json_texts-iter_sse ps true h k =
    ap json_texts (parse-iter_sse ps true h)
    ∙ json_texts-append ps (done ∷ []) k
    ∙ append-nothing ps
json_texts-iter_sse ps false h k =
    ap json_texts (parse-iter_sse ps false h) ∙ json_texts-append ps [] k ∙ append-nothing ps
