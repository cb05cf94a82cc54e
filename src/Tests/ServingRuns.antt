-- ===== src/Tests/ServingRuns.antt =====
-- Concrete runs of the request bodies, the handlers and the mock backend, and the theorems on them.
use llm_serve.Prelude.{
  ℕ, ◌-◌, ◌≡◌, refl, true, false, All, none, some, List, [], ◌∷◌, ◌++◌, map, length, codes, Str,
  str_eq, show, lookup, ℤ, pos, Dict, value_error, type_error, Result, ok, err,
}
use llm_serve.Values.{Value, int, str, list, dict, null, bool, of_dict, of_list, to_list}
use llm_serve.Types.{FinishReason, TokenChunk, join}
use llm_serve.Types.Results.{spoken, first_of, gaps, result}
use llm_serve.Api.Sse.{done, strip_left, split_lines, json_texts, parse_sse_stream}
use llm_serve.Api.ChatTemplate.{
  render_mistral_prompt, fold_system, system_parts, alternates, ends_with_assistant, without_system,
  any_tool,
}
use llm_serve.Values.Casts.{repr}
use llm_serve.Api.Schemas.{
  ApiRequest, chat_chunk, parse_completion_request, parse_chat_request, check_messages,
}
use llm_serve.Api.Schemas.Requests.{
  ValidRequest, parse_completion_request-Valid, parse_chat_request-Valid,
}
use llm_serve.Api.App.{
  Server, Served, finished, opening, stream_completion, handle, authorized, body_of, refuse,
  uncaught, message_of, render,
}
use llm_serve.Api.App.Streams.{IsJsonText, contents, stream_completion-Reads}
use llm_serve.Api.App.Errors.{handle-tool}
use llm_serve.Backends.Mock.{init, generate_stream, tokens_for, encodes, seeds, Streamed, streamed}
use llm_serve.Backends.Mock.Streams.{Streams}
use llm_serve.Backends.Mock.Counts.{alone}
use llm_serve.Backends.Mock.Clients.{ending_of}
use llm_serve.Tests.Floats.{decimals}

abbrev body : Dict (Value ℤ)
body =
    (codes "prompt", str (codes "hello"))
    ∷ (codes "max_tokens", int (pos 2))
    ∷ (codes "stream", bool true)
    ∷ (codes "stop", str (codes "###"))
    ∷ (codes "extra", null)
    ∷ []

abbrev request_of : Result (ApiRequest ℤ) → ApiRequest ℤ
request_of (ok r) = r
request_of (err e) = record {
  request = record { request_id = []; prompt = []; prompt_token_ids = none };
  sampling = record {
    max_tokens = null;
    temperature = null;
    top_p = null;
    top_k = null;
    presence_penalty = null;
    frequency_penalty = null;
    repetition_penalty = null;
    stop = [];
    seed = null;
    n = null;
    ignore_eos = null;
  };
  model = null;
  stream = false;
  endpoint = [];
  user = null;
}

abbrev request : ApiRequest ℤ
request =
    request_of (parse_completion_request decimals (codes "f0") (codes "m") (dict (of_dict body)))

parsed_request :
    parse_completion_request decimals (codes "f0") (codes "m") (dict (of_dict body)) ≡ ok request
unfolding parse_completion_request decimals lookup str_eq
parsed_request = refl

parse_completion_request-Valid_example :
    ValidRequest request × (request.request.request_id ≡ codes "cmpl-" ++ codes "f0")
parse_completion_request-Valid_example =
    parse_completion_request-Valid decimals (codes "f0") (codes "m") (dict (of_dict body)) request
      parsed_request

abbrev message : Str → Str → Value ℤ
message role content =
    dict (of_dict ((codes "role", str role) ∷ (codes "content", str content) ∷ []))

abbrev chat_body : List (Value ℤ) → Dict (Value ℤ)
chat_body messages = (codes "messages", list (of_list messages)) ∷ []

abbrev question : List (Value ℤ)
question = message (codes "user") (codes "hi") ∷ []

abbrev chat_request : ApiRequest ℤ
chat_request =
    request_of (parse_chat_request decimals render (codes "f0") (codes "m") (chat_body question))

parsed_chat :
    parse_chat_request decimals render (codes "f0") (codes "m") (chat_body question)
    ≡ ok chat_request
unfolding parse_chat_request decimals lookup str_eq render_mistral_prompt without_system any_tool
    fold_system system_parts alternates ends_with_assistant
parsed_chat = refl

parse_chat_request-Valid_example :
    ValidRequest chat_request
    × (chat_request.request.request_id ≡ codes "chatcmpl-" ++ codes "f0")
    × ((messages : List (Value ℤ)) × (checked : List (Dict (Value ℤ))) × (check_messages decimals
            messages
          ≡ ok checked)
        × (render checked ≡ ok chat_request.request.prompt))
parse_chat_request-Valid_example =
    parse_chat_request-Valid decimals render (codes "f0") (codes "m") (chat_body question)
      chat_request parsed_chat

abbrev with_tool : List (Value ℤ)
with_tool = message (codes "user") (codes "hi") ∷ message (codes "tool") (codes "42") ∷ []

abbrev checked_tool : List (Dict (Value ℤ))
checked_tool =
    ((codes "role", str (codes "user")) ∷ (codes "content", str (codes "hi")) ∷ [])
    ∷ ((codes "role", str (codes "tool")) ∷ (codes "content", str (codes "42")) ∷ [])
    ∷ []

abbrev minus : ℕ → ℕ → ℕ
minus a b = a - b

-- The JSON library of the runs: it reads one body, and prints nothing but an empty object.
abbrev server : Server ℤ ℕ
server = record {
  api_key = null;
  served_model_name = codes "m";
  loads = λ s. some (dict (of_dict (chat_body with_tool)));
  dumps = λ v. codes "{}";
  minus = minus;
  now = pos 0;
  start = 0;
  end_time = 9;
  fresh = codes "f0";
  message = codes "bad";
  backend = λ r. record { chunks = []; ending = finished };
}

tool_facts :
    (authorized decimals server [] ≡ true)
    × (body_of decimals server (codes "x") ≡ some (chat_body with_tool))
    × (lookup (codes "messages") (chat_body with_tool) ≡ some (list (of_list with_tool)))
    × (check_messages decimals (to_list (of_list with_tool)) ≡ ok checked_tool)
    × (any_tool (without_system (map message_of checked_tool)) ≡ true)
unfolding authorized body_of check_messages any_tool without_system lookup str_eq
tool_facts = (refl, refl, refl, refl, refl)

handle-tool_example : handle decimals server true [] (codes "x") ≡ refuse (uncaught value_error)
handle-tool_example =
    handle-tool decimals server [] (codes "x") (chat_body with_tool) (of_list with_tool)
      checked_tool tool_facts.0 tool_facts.1 tool_facts.2 tool_facts.3 tool_facts.4

abbrev spoken_chunk : TokenChunk ℕ
spoken_chunk = record {
  request_id = codes "cmpl-f0";
  index = 0;
  text = codes "a";
  token_id = none;
  finish_reason = none;
  timestamp = 5;
}

abbrev end_chunk : TokenChunk ℕ
end_chunk = record {
  request_id = codes "cmpl-f0";
  index = 1;
  text = [];
  token_id = none;
  finish_reason = some FinishReason.length_limit;
  timestamp = 6;
}

abbrev dumped : Value ℤ → Str
dumped v = codes "{}"

texts_of_stream : All IsJsonText (
    map (repr decimals) (
      opening true request (pos 0)
      ++ contents true request (pos 0) (spoken_chunk ∷ []) FinishReason.length_limit))
unfolding repr opening chat_chunk spoken split_lines strip_left str_eq decimals
    parse_completion_request lookup show
texts_of_stream = (((refl, tt), refl), (((refl, tt), refl), (((refl, tt), refl), tt)))

abbrev served : Served ℕ
served =
    stream_completion (repr decimals) minus true request (pos 0) 0
      (record { chunks = (spoken_chunk ∷ []) ++ end_chunk ∷ []; ending = finished }) 9

stream_completion-Reads_example :
    (parse_sse_stream (join served.frames)
      ≡ map (repr decimals) (
          opening true request (pos 0)
          ++ contents true request (pos 0) (spoken_chunk ∷ []) FinishReason.length_limit)
        ++ done ∷ [])
    × (json_texts (parse_sse_stream (join served.frames))
        ≡ map (repr decimals) (
            opening true request (pos 0)
            ++ contents true request (pos 0) (spoken_chunk ∷ []) FinishReason.length_limit))
    × (served.observed
        ≡ (
          result minus request.request 0 9
              (map (λ c. c.text) (spoken (spoken_chunk ∷ [])))
              (length (spoken (spoken_chunk ∷ [])))
              FinishReason.length_limit
              (first_of (spoken (spoken_chunk ∷ [])))
              (gaps minus (spoken (spoken_chunk ∷ []))),
          codes "ok",
        )
          ∷ [])
stream_completion-Reads_example =
    stream_completion-Reads true request (pos 0) (repr decimals) minus 0 9 (spoken_chunk ∷ [])
      end_chunk FinishReason.length_limit (refl, tt) refl refl texts_of_stream

abbrev word : ℕ → Str
word i = codes "word"

abbrev token_id : Str → ℕ
token_id s = length s

abbrev clock : ℕ → ℕ
clock i = i

abbrev mock_run : Streamed ℕ
mock_run = generate_stream request word token_id clock alone init

-- A list as the seed, and a lone surrogate in the prompt
abbrev refused_request : Str → Value ℤ → ApiRequest ℤ
refused_request prompt seed = record request {
  request = record (request.request) { prompt = prompt };
  sampling = record (request.sampling) { seed = seed };
}

refused_runs :
    ((generate_stream
        (refused_request (codes "hi") (list (of_list [])))
        word
        token_id
        clock
        alone
        init).outcome
      ≡ err type_error)
    × ((generate_stream (refused_request (55296 ∷ []) null) word token_id clock alone init).outcome
        ≡ err value_error)
unfolding generate_stream streamed tokens_for encodes seeds
refused_runs = (refl, refl)

abbrev mock_served : Served ℕ
mock_served =
    stream_completion dumped minus true request (pos 0) 0
      (record { chunks = mock_run.chunks; ending = ending_of (codes "bad") mock_run.outcome }) 9
