-- ===== src/Api/Schemas.antt =====
-- llm_serve/api/openai_schemas.py: request bodies, as the JSON values that they are parsed to, read as
-- requests, and responses built as JSON values. The clock and the random part of an id are arguments.
use llm_serve.Prelude.{
  ℕ, ◌≡◌, Bool, true, false, not, ◌&&◌, ◌||◌, leb, Option, none, some, List, [], ◌∷◌, ◌++◌, map,
  Str, codes, Dict, lookup, length, ℤ, pos, int_lt, if◌then◌else◌, validation_error, Result, ok,
  err,
}
use llm_serve.Prelude.Results.{◌>>=◌, ensure}
use llm_serve.Values.{
  Value, null, bool, int, float, str, list, dict, Fields, blank, field, of_dict, Runtime, is_null,
  is_str, is_one_of, of_list, to_list, to_dict, truthy,
}
use llm_serve.Api.ChatTemplate.{empty}
use llm_serve.Types.{FinishReason, GenerationRequest, GenerationResult, total_tokens}
use llm_serve.Types.Sampling.{SamplingParams, all_text, from_dict, require_int}
pub mod Requests

-- A request with the fields that its body gives it.
pub record ApiRequest (Float : Type 0) : Type 0 where
  pub request : GenerationRequest
  pub sampling : SamplingParams Float
  pub model : Value Float
  pub stream : Bool
  pub endpoint : Str
  pub user : Value Float

abbrev pub valid_roles : List Str
valid_roles = codes "system" ∷ codes "user" ∷ codes "assistant" ∷ codes "tool" ∷ []

-- `GenerationRequest(...)`, which refuses an empty prompt
abbrev pub request_with : Str → Str → Result GenerationRequest
request_with request_id prompt = ensure (not (empty prompt)) validation_error >>= λ _.
    ok (record { request_id = request_id; prompt = prompt; prompt_token_ids = none })

module _ {Float : Type 0} where
  abbrev not_null : Value Float → Result (Value Float)
  not_null null = err validation_error
  not_null v = ok v

  abbrev required : Option (Value Float) → Result (Value Float)
  required none = err validation_error
  required (some v) = not_null v

  -- `_require`
  unfoldable pub require : Str → Dict (Value Float) → Result (Value Float)
  require key payload = required (lookup key payload)

  -- `payload.get(key, default)`
  abbrev get_or : Value Float → Option (Value Float) → Value Float
  get_or default none = default
  get_or default (some v) = v

  abbrev pub get : Str → Dict (Value Float) → Value Float
  get key payload = get_or null (lookup key payload)

  abbrev only_prompt : List (Value Float) → Result (Value Float)
  only_prompt [] = err validation_error
  only_prompt (p ∷ ps) = ensure (all_text (p ∷ ps)) validation_error >>= λ _.
      ensure (empty ps) validation_error >>= λ _. ok p

  abbrev pub single_prompt : Value Float → Result (Value Float)
  single_prompt (list ps) = only_prompt (to_list ps)
  single_prompt v = ok v

  abbrev pub text_prompt : Value Float → Result Str
  text_prompt (str s) = ok s
  text_prompt v = err validation_error

  abbrev pub one_choice : SamplingParams Float → Result (Unit {0})
  one_choice p = require_int p.n >>= λ n. ensure (not (int_lt (pos 1) n)) validation_error

  module _ (R : Runtime Float) where
    -- The body's values for the rest of the request
    abbrev pub finished :
        Str → Str → Dict (Value Float) → SamplingParams Float → GenerationRequest → ApiRequest Float
    finished endpoint default_model payload sampling request = record {
      request = request;
      sampling = sampling;
      model =
          (if truthy R (get (codes "model") payload)
            then get (codes "model") payload
            else str default_model);
      stream = truthy R (get (codes "stream") payload);
      endpoint = endpoint;
      user = get (codes "user") payload;
    }

    abbrev pub build : Str → Str → Dict (Value Float) → Str → Str → Result (ApiRequest Float)
    build endpoint default_model payload id prompt = from_dict R payload >>= λ sampling.
        one_choice sampling >>= λ _. request_with id prompt >>= λ request.
        ok (finished endpoint default_model payload sampling request)

    abbrev completion_request : Str → Str → Dict (Value Float) → Result (ApiRequest Float)
    completion_request fresh default_model payload = do
      given ← require (codes "prompt") payload
      prompt ← single_prompt given
      text ← text_prompt prompt
      build (codes "completions") default_model payload (codes "cmpl-" ++ fresh) text

    -- `fresh` is the hexadecimal part of the new id.
    unfoldable pub parse_completion_request : Str → Str → Value Float → Result (ApiRequest Float)
    unfolding require from_dict
    parse_completion_request fresh default_model (dict fs) =
        completion_request fresh default_model (to_dict fs)
    parse_completion_request fresh default_model v = err validation_error

    abbrev text_or_absent : Option (Value Float) → Bool
    text_or_absent none = true
    text_or_absent (some v) = is_str v

    abbrev check_message : Value Float → Result (Dict (Value Float))
    check_message (dict fs) =
        ensure (is_one_of valid_roles (get (codes "role") (to_dict fs))) validation_error >>= λ _.
        ensure (text_or_absent (lookup (codes "content") (to_dict fs))) validation_error >>= λ _.
        ok (to_dict fs)
    check_message v = err validation_error

    unfoldable pub check_messages : List (Value Float) → Result (List (Dict (Value Float)))
    check_messages [] = ok []
    check_messages (m ∷ ms) = check_message m >>= λ d. check_messages ms >>= λ ds. ok (d ∷ ds)

    abbrev pub message_list : Value Float → Result (List (Value Float))
    message_list (list ms) =
        ensure (not (empty (to_list ms))) validation_error >>= λ _. ok (to_list ms)
    message_list v = err validation_error

    -- The body is an object here.
    unfoldable pub parse_chat_request :
        (List (Dict (Value Float)) → Result Str)
        → Str
        → Str
        → Dict (Value Float)
        → Result (ApiRequest Float)
    unfolding require from_dict check_messages
    parse_chat_request render_template fresh default_model payload = do
      given ← require (codes "messages") payload
      messages ← message_list given
      checked ← check_messages messages
      prompt ← render_template checked
      build (codes "chat") default_model payload (codes "chatcmpl-" ++ fresh) prompt

  -- `_finish`
  unfoldable pub finish_value : Option FinishReason → Value Float
  finish_value none = null
  finish_value (some FinishReason.stop) = str (codes "stop")
  finish_value (some FinishReason.length_limit) = str (codes "length")
  finish_value (some FinishReason.abort) = str (codes "length")
  finish_value (some FinishReason.error) = str (codes "length")

  abbrev text : Str → Value Float
  text s = str s

  abbrev number : ℕ → Value Float
  number n = int (pos n)

  abbrev object : Dict (Value Float) → Value Float
  object d = dict (of_dict d)

  abbrev pub usage_fields : {Time : Type 0} → GenerationResult Time → Dict (Value Float)
  usage_fields r =
      (codes "prompt_tokens", number r.prompt_tokens)
      ∷ (codes "completion_tokens", number r.completion_tokens)
      ∷ (codes "total_tokens", number (total_tokens r))
      ∷ []

  unfoldable pub usage : {Time : Type 0} → GenerationResult Time → Value Float
  usage r = object (usage_fields r)

  abbrev created_at : Option ℤ → ℤ → Value Float
  created_at none now = int now
  created_at (some t) now = int t

  -- The fields that all responses start with; the only choice has index 0 and some content.
  abbrev response :
      Str
      → ApiRequest Float
      → Option ℤ
      → ℤ
      → Str × Value Float
      → Option FinishReason
      → Dict (Value Float)
  response kind r created now content reason =
      (codes "id", text r.request.request_id)
      ∷ (codes "object", text kind)
      ∷ (codes "created", created_at created now)
      ∷ (codes "model", r.model)
      ∷ (
        codes "choices",
        list (
            of_list (
              object (
                (codes "index", number 0)
                ∷ content
                ∷ (codes "logprobs", null)
                ∷ (codes "finish_reason", finish_value reason)
                ∷ [])
              ∷ [])),
      )
      ∷ []

  unfoldable pub completion_response :
      {Time : Type 0} → ApiRequest Float → GenerationResult Time → Option ℤ → ℤ → Value Float
  unfolding usage finish_value
  completion_response request result created now = object (
      response (codes "text_completion") request created now (codes "text", text result.text)
        (some result.finish_reason)
      ++ (codes "usage", usage result) ∷ [])

  unfoldable pub chat_completion_response :
      {Time : Type 0} → ApiRequest Float → GenerationResult Time → Option ℤ → ℤ → Value Float
  unfolding usage finish_value
  chat_completion_response request result created now =
      let message : Value Float =
        object
          ((codes "role", text (codes "assistant")) ∷ (codes "content", text result.text) ∷ []) in
      object (
        response (codes "chat.completion") request created now (codes "message", message)
          (some result.finish_reason)
        ++ (codes "usage", usage result) ∷ [])

  unfoldable pub completion_chunk :
      ApiRequest Float → Str → Option FinishReason → Option ℤ → ℤ → Value Float
  unfolding finish_value
  completion_chunk request piece reason created now =
      object
        (response (codes "text_completion") request created now (codes "text", text piece) reason)

  abbrev role_field : Option Str → Dict (Value Float)
  role_field none = []
  role_field (some role) = (codes "role", text role) ∷ []

  abbrev content_field : Str → Dict (Value Float)
  content_field [] = []
  content_field (c ∷ s) = (codes "content", text (c ∷ s)) ∷ []

  unfoldable pub chat_chunk :
      ApiRequest Float → Str → Option FinishReason → Option ℤ → Option Str → ℤ → Value Float
  unfolding finish_value
  chat_chunk request piece reason created role now = object (
      response (codes "chat.completion.chunk") request created now
        (codes "delta", object (role_field role ++ content_field piece)) reason)

  abbrev model_entries : List Str → Str → ℤ → List (Value Float)
  model_entries [] owner now = []
  model_entries (name ∷ names) owner now =
      object (
        (codes "id", text name)
        ∷ (codes "object", text (codes "model"))
        ∷ (codes "created", int now)
        ∷ (codes "owned_by", text owner)
        ∷ [])
      ∷ model_entries names owner now

  unfoldable pub models_response : List Str → Str → ℤ → Value Float
  models_response names owner now = object (
      (codes "object", text (codes "list"))
      ∷ (codes "data", list (of_list (model_entries names owner now)))
      ∷ [])

  abbrev text_or_null : Option Str → Value Float
  text_or_null none = null
  text_or_null (some s) = text s

  unfoldable pub error_response : Str → Str → Option Str → Value Float
  error_response message kind code = object (
      (
        codes "error",
        object (
            (codes "message", text message)
            ∷ (codes "type", text kind)
            ∷ (codes "param", null)
            ∷ (codes "code", text_or_null code)
            ∷ []),
      )
      ∷ [])
