-- ===== src/Api/App.antt =====
-- llm_serve/api/app.py: the handlers of the HTTP application. What the web framework, the JSON library
-- and the clock give are arguments; a run of the backend is the list of its chunks and how it ends.
use llm_serve.Prelude.{
  ℕ, Bool, true, false, not, ◌&&◌, Option, none, some, List, [], ◌∷◌, ◌++◌, map, drop, Str, codes,
  Dict, lookup, ℤ, if◌then◌else◌, value_error, validation_error, runtime_error, Error, Result, ok,
  err,
}
use llm_serve.Values.{Value, null, str, dict, to_dict, of_dict, Runtime, truthy, is_text}
use llm_serve.Types.{
  FinishReason, TokenChunk, GenerationResult, ResultAccumulator, is_empty, init, add, add_all,
  finish,
}
use llm_serve.Api.Sse.{format_sse, done_event, starts_with}
use llm_serve.Api.ChatTemplate.{Message, render_mistral_prompt}
use llm_serve.Api.Schemas.{
  ApiRequest, get, parse_completion_request, parse_chat_request, completion_response,
  chat_completion_response, completion_chunk, chat_chunk, error_response,
}
pub mod Streams
pub mod Errors

-- How the stream of a backend ends: by itself, by an exception with its text, or because the client
-- has gone or the time is up.
pub data Ending : Type 0 where
  finished : Ending
  failed : Str → Ending
  cancelled : Ending

pub record Run (Time : Type 0) : Type 0 where
  pub chunks : List (TokenChunk Time)
  pub ending : Ending

-- What a request leaves: the frames sent, the results recorded with their status, the requests
-- aborted, and whether an exception goes on to the caller.
pub record Served (Time : Type 0) : Type 0 where
  pub frames : List Str
  pub observed : List (GenerationResult Time × Str)
  pub aborted : List Str
  pub raised : Bool

-- An answer: a JSON body with its status, a stream of frames, an HTTP error, or an exception that
-- no handler takes.
pub data Answer (Float : Type 0) : Type 0 where
  json : ℕ → Value Float → Answer Float
  streaming : List Str → Answer Float
  denied : ℕ → Answer Float
  uncaught : Error → Answer Float

pub record Reply (Float Time : Type 0) : Type 0 where
  pub answer : Answer Float
  pub observed : List (GenerationResult Time × Str)
  pub aborted : List Str

abbrev pub refuse : {Float Time : Type 0} → Answer Float → Reply Float Time
refuse answer = record { answer = answer; observed = []; aborted = [] }

-- `format_json_sse`
abbrev pub frame : {Float : Type 0} → (Value Float → Str) → Value Float → Str
frame dumps payload = format_sse (dumps payload) none none

module _ {Float : Type 0} (chat : Bool) (request : ApiRequest Float) (created : ℤ) where
  abbrev pub piece : Str → Option FinishReason → Value Float
  piece text reason =
      if chat
      then chat_chunk request text reason (some created) none created
      else completion_chunk request text reason (some created) created

  abbrev final_payloads : Option FinishReason → List (Value Float)
  final_payloads none = []
  final_payloads (some reason) = piece [] (some reason) ∷ []

  -- The payloads of one chunk.
  unfoldable pub chunk_payloads : {Time : Type 0} → TokenChunk Time → List (Value Float)
  chunk_payloads c =
      (if is_empty c.text then [] else piece c.text none ∷ []) ++ final_payloads c.finish_reason

  -- The payload that names the role comes first in a chat.
  unfoldable pub opening : List (Value Float)
  opening =
      if chat
      then chat_chunk request [] none (some created) (some (codes "assistant")) created ∷ []
      else []

module _ {Float Time : Type 0} (dumps : Value Float → Str) (minus : Time → Time → Time) where
  module _ (chat : Bool) (request : ApiRequest Float) (created : ℤ) where
    -- The loop over the chunks: the frames sent, and the accumulator.
    unfoldable pub relay :
        List (TokenChunk Time)
        → List Str × ResultAccumulator Time
        → List Str × ResultAccumulator Time
    unfolding chunk_payloads
    relay [] sent = sent
    relay (c ∷ cs) (frames, accumulator) = relay cs (
      frames ++ map (frame dumps) (chunk_payloads chat request created c),
      add minus c accumulator,
    )

    abbrev close : Ending → Time → List Str × ResultAccumulator Time → Served Time
    close finished end_time (frames, accumulator) = record {
      frames = frames ++ done_event ∷ [];
      observed = (finish minus end_time accumulator, codes "ok") ∷ [];
      aborted = [];
      raised = false;
    }
    close (failed message) end_time (frames, accumulator) = record {
      frames =
          frames
          ++ frame dumps (error_response message (codes "server_error") none) ∷ done_event ∷ [];
      observed = (finish minus end_time accumulator, codes "error") ∷ [];
      aborted = [];
      raised = false;
    }
    close cancelled end_time (frames, accumulator) = record {
      frames = frames;
      observed = [];
      aborted = request.request.request_id ∷ [];
      raised = true;
    }

    unfoldable pub stream_completion : Time → Run Time → Time → Served Time
    unfolding relay opening
    stream_completion start run end_time = close run.ending end_time (
        relay run.chunks
          (map (frame dumps) (opening chat request created), init request.request start))

  -- `run_completion`, where the stream ends by itself
  unfoldable pub run_completion :
      ApiRequest Float → Time → List (TokenChunk Time) → Time → GenerationResult Time
  run_completion request start chunks end_time =
      finish minus end_time (add_all minus chunks (init request.request start))

  abbrev builder : Bool → ApiRequest Float → GenerationResult Time → ℤ → Value Float
  builder chat request result now =
      if chat
      then chat_completion_response request result none now
      else completion_response request result none now

  -- The answer of a request that is not streamed; `wait_for` cancels a run that takes too long.
  abbrev answer_once :
      Bool → ApiRequest Float → ℤ → Ending → GenerationResult Time → Reply Float Time
  answer_once chat request now finished result = record {
    answer = json 200 (builder chat request result now);
    observed = (result, codes "ok") ∷ [];
    aborted = [];
  }
  answer_once chat request now (failed message) result = refuse (uncaught runtime_error)
  answer_once chat request now cancelled result = record {
    answer = json 504 (error_response (codes "request timed out") (codes "timeout_error") none);
    observed = [];
    aborted = request.request.request_id ∷ [];
  }

  abbrev reply_of : Served Time → Reply Float Time
  reply_of s = record { answer = streaming s.frames; observed = s.observed; aborted = s.aborted }

  abbrev pub answer_request :
      Bool
      → ℤ
      → (ApiRequest Float → Run Time)
      → Time
      → Time
      → Str
      → Result (ApiRequest Float)
      → Reply Float Time
  answer_request chat now backend start end_time message (ok request) =
      let run = backend request in
      if request.stream
      then reply_of (stream_completion chat request now start run end_time)
      else answer_once chat request now run.ending
          (run_completion request start run.chunks end_time)
  answer_request chat now backend start end_time message (err validation_error) =
      refuse (json 400 (error_response message (codes "invalid_request_error") none))
  answer_request chat now backend start end_time message (err e) = refuse (uncaught e)

-- `header[len("Bearer "):]`, of a header that starts so
abbrev bearer : Str → Str
bearer header = if starts_with (codes "Bearer ") header then drop 7 header else []

abbrev text_of : {Float : Type 0} → Option (Value Float) → Option Str
text_of (some (str s)) = some s
text_of _ = none

abbrev pub message_of : {Float : Type 0} → Dict (Value Float) → Message
message_of d = record {
  role = text_of (lookup (codes "role") d);
  content = text_of (lookup (codes "content") d);
}

-- `render_mistral_prompt(messages)`
abbrev pub render : {Float : Type 0} → List (Dict (Value Float)) → Result Str
render messages = render_mistral_prompt (map message_of messages) true true

-- What the handlers take from the configuration and from outside: the two options, the JSON library,
-- the clock, the random part of an id, the text of an exception, and the backend's run of a request.
pub record Server (Float Time : Type 0) : Type 0 where
  pub api_key : Value Float
  pub served_model_name : Str
  pub loads : Str → Option (Value Float)
  pub dumps : Value Float → Str
  pub minus : Time → Time → Time
  pub now : ℤ
  pub start : Time
  pub end_time : Time
  pub fresh : Str
  pub message : Str
  pub backend : ApiRequest Float → Run Time

abbrev pub object_of : {Float : Type 0} → Option (Value Float) → Option (Dict (Value Float))
object_of (some (dict fs)) = some (to_dict fs)
object_of _ = none

module _ {Float Time : Type 0} (R : Runtime Float) where
  -- `_authorize`
  unfoldable pub authorized : Server Float Time → Str → Bool
  authorized server header =
      if not (truthy R server.api_key) then true else is_text (bearer header) server.api_key

  -- `_body`, where an empty body is an empty object
  unfoldable pub body_of : Server Float Time → Str → Option (Dict (Value Float))
  body_of server [] = object_of (server.loads (codes "{}"))
  body_of server (c ∷ raw) = object_of (server.loads (c ∷ raw))

  abbrev pub parse : Server Float Time → Bool → Dict (Value Float) → Result (ApiRequest Float)
  parse server chat payload =
      if chat
      then parse_chat_request R render server.fresh server.served_model_name payload
      else parse_completion_request R server.fresh server.served_model_name (dict (of_dict payload))

  abbrev pub answer_body : Server Float Time → Bool → Option (Dict (Value Float)) → Reply Float Time
  answer_body server chat none = refuse (denied 400)
  answer_body server chat (some payload) =
      answer_request server.dumps server.minus chat server.now server.backend server.start
        server.end_time server.message (parse server chat payload)

  -- `_handle`
  unfoldable pub handle : Server Float Time → Bool → Str → Str → Reply Float Time
  unfolding authorized body_of
  handle server chat header raw =
      if not (authorized server header)
      then refuse (denied 401)
      else answer_body server chat (body_of server raw)
