-- ===== src/Api/Schemas/Requests.antt =====
-- llm_serve/api/openai_schemas.py: what holds of a request that a body is read as.
use mathlib.Core.Path.{subst}
use llm_serve.Prelude.{
  ℕ, ◌≡◌, refl, sym, ap, ◌∙◌, ◌≤◌, true, false, not, List, [], ◌∷◌, ◌++◌, Str, codes, Dict, ℤ, pos,
  negsuc, int_lt, validation_error, Result, ok, arith,
}
use llm_serve.Prelude.Results.{ok_inj, bind-ok_inv, ensure_inv}
use llm_serve.Values.{Value, null, bool, int, float, str, list, dict, to_dict, Runtime}
use llm_serve.Types.{GenerationRequest}
use llm_serve.Types.Sampling.{require_int, from_dict}
use llm_serve.Types.Bounds.{ValidParams, from_dict-Valid, require_int_inv}
use llm_serve.Api.ChatTemplate.{empty}
use llm_serve.Api.Schemas.{
  ApiRequest, require, single_prompt, text_prompt, request_with, one_choice, finished, build,
  parse_completion_request, message_list, check_messages, parse_chat_request,
}

-- A request that a backend may be given: parameters within their bounds, one choice, a prompt.
pub record ValidRequest {Float : Type 0} (r : ApiRequest Float) : Type 0 where
  pub params : ValidParams r.sampling
  pub single : r.sampling.n ≡ int (pos 1)
  pub has_prompt : empty r.request.prompt ≡ false

module _ {Float : Type 0} where
  one_of_positive :
      (v : Value Float) (k : ℕ) (n : ℤ)
      → v ≡ int (pos k)
      → 1 ≤ k
      → v ≡ int n
      → not (int_lt (pos 1) n) ≡ true
      → v ≡ int (pos 1)
  one_of_positive v k (pos n) e low e' high = ground (arith, e, e', high)
  one_of_positive v k (negsuc n) e low e' high = absurd (cc (e, e'))

request_with_inv :
    (id prompt : Str) {r : GenerationRequest}
    → request_with id prompt ≡ ok r
    → (empty prompt ≡ false) × (r.prompt ≡ prompt) × (r.request_id ≡ id)
request_with_inv id [] h = cc
request_with_inv id (c ∷ prompt) h = (refl, cc, cc)

module _ {Float : Type 0} (R : Runtime Float) where
  build-Valid :
      (endpoint default_model id prompt : Str) (payload : Dict (Value Float)) (r : ApiRequest Float)
      → build R endpoint default_model payload id prompt ≡ ok r
      → ValidRequest r × (r.request.prompt ≡ prompt) × (r.request.request_id ≡ id)
  build-Valid endpoint default_model id prompt payload r h =
      let (sampling, read, h1) = bind-ok_inv (from_dict R payload) _ h in
      let (u, single, h2) = bind-ok_inv (one_choice sampling) _ h1 in
      let (n, n_is, n_ok) = bind-ok_inv (require_int sampling.n) _ single in
      let (request, made, h3) = bind-ok_inv (request_with id prompt) _ h2 in
      let (full, same, named) = request_with_inv id prompt made in
      let valid = from_dict-Valid R payload sampling read in
      let (k, k_is, low) = valid.choices in
      let is : finished R endpoint default_model payload sampling request ≡ r = ok_inj h3 in
      subst (λ q. ValidRequest q × (q.request.prompt ≡ prompt) × (q.request.request_id ≡ id)) is
        (
          record {
            params = valid;
            single =
                one_of_positive sampling.n k n k_is low (require_int_inv sampling.n n_is)
                  (ensure_inv (not (int_lt (pos 1) n)) validation_error n_ok);
            has_prompt = ap empty same ∙ full;
          },
          same,
          named,
        )

  -- Whatever JSON value the body is, a request that `parse_completion_request` returns is one that
  -- a backend may run: `max_tokens` is an integer from 1 to 32768, `top_k` is -1 or a positive
  -- integer, `n` is 1, there are at most 8 stop sequences and all are strings, the prompt is not
  -- empty, and the id is the prefix and the random part.
  pub parse_completion_request-Valid :
      (fresh default_model : Str) (body : Value Float) (r : ApiRequest Float)
      → parse_completion_request R fresh default_model body ≡ ok r
      → ValidRequest r × (r.request.request_id ≡ codes "cmpl-" ++ fresh)
  unfolding parse_completion_request
  parse_completion_request-Valid fresh default_model (dict fs) r h =
      let (given, g, h1) = bind-ok_inv (require (codes "prompt") (to_dict fs)) _ h in
      let (prompt, p, h2) = bind-ok_inv (single_prompt given) _ h1 in
      let (text, t, h3) = bind-ok_inv (text_prompt prompt) _ h2 in
      let (valid, same, named) =
        build-Valid (codes "completions") default_model (codes "cmpl-" ++ fresh) text (to_dict fs) r
          h3 in
      (valid, named)
  parse_completion_request-Valid fresh default_model null r h = cc
  parse_completion_request-Valid fresh default_model (bool b) r h = cc
  parse_completion_request-Valid fresh default_model (int n) r h = cc
  parse_completion_request-Valid fresh default_model (float x) r h = cc
  parse_completion_request-Valid fresh default_model (str s) r h = cc
  parse_completion_request-Valid fresh default_model (list vs) r h = cc

  -- Whatever object the body is, and whatever the template does, a request that
  -- `parse_chat_request` returns has decoding parameters within their bounds, `n` equal to 1, the
  -- id of a chat, and a prompt that is not empty and that the template returned for messages that
  -- passed their checks.
  pub parse_chat_request-Valid :
      (render : List (Dict (Value Float)) → Result Str) (fresh default_model : Str)
      (payload : Dict (Value Float)) (r : ApiRequest Float)
      → parse_chat_request R render fresh default_model payload ≡ ok r
      → ValidRequest r
        × (r.request.request_id ≡ codes "chatcmpl-" ++ fresh)
        × ((messages : List (Value Float)) × (checked : List (Dict (Value Float))) × (check_messages
                R messages
              ≡ ok checked)
            × (render checked ≡ ok r.request.prompt))
  unfolding parse_chat_request
  parse_chat_request-Valid render fresh default_model payload r h =
      let (given, g, h1) = bind-ok_inv (require (codes "messages") payload) _ h in
      let (messages, m, h2) = bind-ok_inv (message_list R given) _ h1 in
      let (checked, c, h3) = bind-ok_inv (check_messages R messages) _ h2 in
      let (prompt, p, h4) = bind-ok_inv (render checked) _ h3 in
      let (valid, same, named) =
        build-Valid (codes "chat") default_model (codes "chatcmpl-" ++ fresh) prompt payload r h4 in
      (valid, named, (messages, checked, c, p ∙ ap ok (sym same)))
