-- ===== src/Tests/ApiRuns.antt =====
-- The theorems on llm_serve/api at concrete streams.
use llm_serve.Prelude.{◌≡◌, refl, true, some, none, List, [], ◌∷◌, map, Str, codes, arith, ok, ◌++◌}
use llm_serve.Api.Sse.{parse_sse_stream, split_lines, strip_left}
use llm_serve.Api.ChatTemplate.{render_mistral_prompt}
use llm_serve.Api.ChatTemplate.Conversations.{
  conversation, prompt_of, render_mistral_prompt-conversation,
}
use llm_serve.Api.Sse.Streams.{Event, stream, payload, parse_sse_stream-format_sse}

abbrev events : List Event
events =
    record { payload = codes "one\n\ntwo"; event = some (97 ∷ []); retry_ms = some 150 }
    ∷ record { payload = []; event = none; retry_ms = none }
    ∷ []

parse_sse_stream-format_sse_example : parse_sse_stream (stream events) ≡ map payload events
unfolding split_lines strip_left
parse_sse_stream-format_sse_example =
    parse_sse_stream-format_sse events
      ((((λ e. absurd (omega arith)), tt), (refl, (refl, (refl, tt)))), ((tt, (refl, tt)), tt))

abbrev texts : List Str
texts = codes "{}" ∷ codes "[1]" ∷ []

render_mistral_prompt-conversation_example :
    render_mistral_prompt
      (conversation ((codes "hi", codes "hello ") ∷ []) (codes " bye"))
      true
      true
    ≡ ok (codes "<s>" ++ prompt_of ((codes "hi", codes "hello ") ∷ []) (codes " bye"))
render_mistral_prompt-conversation_example =
    render_mistral_prompt-conversation (codes " bye") ((codes "hi", codes "hello ") ∷ []) true true
