-- ===== src/Api/App/Errors.antt =====
-- llm_serve/api/app.py: how the errors of a request are answered.
use llm_serve.Prelude.{
  ◌≡◌, refl, Bool, true, false, some, List, [], ◌∷◌, map, Str, codes, Dict, lookup, value_error, ok,
  err, arith,
}
use llm_serve.Values.{Value, Values, list, to_list, Runtime}
use llm_serve.Api.ChatTemplate.{Message, render_mistral_prompt, without_system, any_tool, empty}
use llm_serve.Api.Schemas.{require, check_messages, parse_chat_request}
use llm_serve.Api.App.{Server, authorized, body_of, handle, refuse, uncaught, message_of, render}

-- A tool turn among the messages: the template refuses it.
some_tool : (ms : List Message) → any_tool ms ≡ true → empty ms ≡ false
unfolding any_tool
some_tool [] h = cc
some_tool (m ∷ ms) h = refl

some_turn : (ms : List Message) → empty (without_system ms) ≡ false → empty ms ≡ false
unfolding without_system
some_turn [] h = h
some_turn (m ∷ ms) h = refl

render-tool :
    (ms : List Message) (add_bos add_generation_prompt : Bool)
    → any_tool (without_system ms) ≡ true
    → render_mistral_prompt ms add_bos add_generation_prompt ≡ err value_error
unfolding render_mistral_prompt
render-tool ms add_bos add_generation_prompt h =
    let turns = some_tool (without_system ms) h in rw (some_turn ms turns) (rw turns (rw h refl))

module _ {Float : Type 0} (R : Runtime Float) where
  checked_empty :
      (vs : List (Value Float)) (checked : List (Dict (Value Float)))
      → check_messages R vs ≡ ok checked
      → empty (map message_of checked) ≡ false
      → empty vs ≡ false
  unfolding check_messages
  checked_empty [] checked h k = ground (arith, h, k)
  checked_empty (v ∷ vs) checked h k = refl

  parse_chat_request-tool :
      (fresh default_model : Str) (payload : Dict (Value Float)) (vs : Values Float)
      (checked : List (Dict (Value Float)))
      → lookup (codes "messages") payload ≡ some (list vs)
      → check_messages R (to_list vs) ≡ ok checked
      → any_tool (without_system (map message_of checked)) ≡ true
      → parse_chat_request R render fresh default_model payload ≡ err value_error
  unfolding parse_chat_request require
  parse_chat_request-tool fresh default_model payload vs checked found read tool =
      let turns =
        some_turn (map message_of checked)
          (some_tool (without_system (map message_of checked)) tool) in
      rw found (
        rw (checked_empty (to_list vs) checked read turns)
          (rw read (rw (render-tool (map message_of checked) true true tool) refl)))

  module _ {Time : Type 0} where
    -- An authorised chat request whose messages pass the checks of the schema and hold a `tool`
    -- turn is answered by no response: the error of the template, which is no `ValidationError`,
    -- leaves the handler, and nothing is recorded or aborted.
    pub handle-tool :
        (server : Server Float Time) (header raw : Str) (payload : Dict (Value Float))
        (vs : Values Float) (checked : List (Dict (Value Float)))
        → authorized R server header ≡ true
        → body_of R server raw ≡ some payload
        → lookup (codes "messages") payload ≡ some (list vs)
        → check_messages R (to_list vs) ≡ ok checked
        → any_tool (without_system (map message_of checked)) ≡ true
        → handle R server true header raw ≡ refuse (uncaught value_error)
    unfolding handle
    handle-tool server header raw payload vs checked allowed body found read tool = rw allowed (
        rw
          (
            body,
            parse_chat_request-tool server.fresh server.served_model_name payload vs checked found
                read tool,
          )
          refl)
