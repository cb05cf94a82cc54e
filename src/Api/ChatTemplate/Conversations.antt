-- ===== src/Api/ChatTemplate/Conversations.antt =====
-- Whole conversations in llm_serve/api/chat_template.py.
use llm_serve.Prelude.{
  append-nil, ◌≡◌, refl, ap, ◌∙◌, Bool, true, false, some, List, [], ◌∷◌, ◌++◌, Str, codes, str_eq,
  if◌then◌else◌, ok,
}
use llm_serve.Api.ChatTemplate.{
  Message, empty, strip, system_parts, without_system, any_tool, fold_system, alternates,
  render_turns, ends_with_assistant, render_mistral_prompt,
}

abbrev pub user_says : Str → Message
user_says s = record { role = some (codes "user"); content = some s }

abbrev pub assistant_says : Str → Message
assistant_says s = record { role = some (codes "assistant"); content = some s }

-- The rounds so far, and the question that is open.
abbrev pub conversation : List (Str × Str) → Str → List Message
conversation [] question = user_says question ∷ []
conversation (r ∷ rounds) question =
    user_says r.0 ∷ assistant_says r.1 ∷ conversation rounds question

-- Its prompt, as the documentation of the template writes it.
abbrev pub prompt_of : List (Str × Str) → Str → Str
prompt_of [] question = codes "[INST] " ++ strip question ++ codes " [/INST]"
prompt_of (r ∷ rounds) question =
    codes "[INST] "
    ++ strip r.0
    ++ codes " [/INST]"
    ++ (codes " " ++ strip r.1 ++ codes "</s>" ++ prompt_of rounds question)

module _ (question : Str) where
  no_system :
      (rounds : List (Str × Str))
      → (system_parts (conversation rounds question) ≡ [])
        × (without_system (conversation rounds question) ≡ conversation rounds question)
  unfolding system_parts without_system str_eq
  no_system [] = (refl, refl)
  no_system (r ∷ rounds) =
      let rest = no_system rounds in
      (rest.0, ap (λ ms. user_says r.0 ∷ assistant_says r.1 ∷ ms) rest.1)

  ends-conversation :
      (a : Str) (rounds : List (Str × Str))
      → ends_with_assistant (assistant_says a ∷ conversation rounds question)
        ≡ ends_with_assistant (conversation rounds question)
  unfolding ends_with_assistant
  ends-conversation a [] = refl
  ends-conversation a (r ∷ rounds) = refl

  conversation_turns :
      (rounds : List (Str × Str))
      → (any_tool (conversation rounds question) ≡ false)
        × (alternates true (conversation rounds question) ≡ true)
        × (ends_with_assistant (conversation rounds question) ≡ false)
        × (render_turns true (conversation rounds question) ≡ prompt_of rounds question)
  unfolding any_tool alternates ends_with_assistant render_turns str_eq
  conversation_turns [] =
      (refl, refl, refl, append-nil (codes "[INST] " ++ strip question ++ codes " [/INST]"))
  conversation_turns (r ∷ rounds) =
      let (t, a, e, p) = conversation_turns rounds in
      (
        t,
        a,
        ends-conversation r.1 rounds ∙ e,
        ap
            (λ rest.
              codes "[INST] "
              ++ strip r.0
              ++ codes " [/INST]"
              ++ (codes " " ++ strip r.1 ++ codes "</s>" ++ rest))
            p,
      )

  some_turns : (rounds : List (Str × Str)) → empty (conversation rounds question) ≡ false
  some_turns [] = refl
  some_turns (r ∷ rounds) = refl

  -- The prompt of any number of rounds of a user and an assistant, then a question of the user,
  -- all without a system message, is rendered without an error, whatever the two flags are: each
  -- user text stands stripped between `[INST]` and `[/INST]`, each assistant text stripped before
  -- the end mark, in order, after the start mark if it was asked for.
  pub render_mistral_prompt-conversation :
      (rounds : List (Str × Str)) (add_bos add_generation_prompt : Bool)
      → render_mistral_prompt (conversation rounds question) add_bos add_generation_prompt
        ≡ ok ((if add_bos then codes "<s>" else []) ++ prompt_of rounds question)
  unfolding render_mistral_prompt fold_system
  render_mistral_prompt-conversation rounds add_bos add_generation_prompt =
      let (parts, turns) = no_system rounds in
      let (tools, order, last, text) = conversation_turns rounds in
      rw (some_turns rounds, parts, turns, some_turns rounds, tools, order, last, text) refl
