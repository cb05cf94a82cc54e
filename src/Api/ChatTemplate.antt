-- ===== src/Api/ChatTemplate.antt =====
-- llm_serve/api/chat_template.py: the Mistral prompt of a message list. A key that a message lacks is
-- `none`; a `TemplateError`, which is a ValueError, is `value_error`.
use llm_serve.Prelude.{
  ℕ, ◌/◌, max, Bool, true, false, not, ◌&&◌, ◌||◌, Option, none, some, List, [], ◌∷◌, ◌++◌, length,
  Str, codes, str_eq, if◌then◌else◌, value_error, Result, ok, err,
}
use llm_serve.Api.Sse.{is_space, join_lines}
pub mod Conversations

pub record Message : Type 0 where
  pub role : Option Str
  pub content : Option Str

abbrev pub empty : {A : Type 0} → List A → Bool
empty [] = true
empty (x ∷ xs) = false

abbrev role_is : Str → Option Str → Bool
role_is r none = false
role_is r (some s) = str_eq s r

abbrev pub has_role : Str → Message → Bool
has_role r m = role_is r m.role

abbrev text_of : Option Str → Str
text_of none = []
text_of (some s) = s

abbrev pub content_of : Message → Str
content_of m = text_of m.content

unfoldable pub strip_start : Str → Str
strip_start [] = []
strip_start (c ∷ s) = let rest = strip_start s in if is_space c then rest else c ∷ s

unfoldable pub strip_end : Str → Str
strip_end [] = []
strip_end (c ∷ s) = let rest = strip_end s in if empty rest && is_space c then [] else c ∷ rest

-- `s.strip()`
unfoldable pub strip : Str → Str
strip s = strip_end (strip_start s)

unfoldable pub system_parts : List Message → List Str
system_parts [] = []
system_parts (m ∷ ms) =
    let rest = system_parts ms in if has_role (codes "system") m then content_of m ∷ rest else rest

unfoldable pub without_system : List Message → List Message
without_system [] = []
without_system (m ∷ ms) =
    let rest = without_system ms in if has_role (codes "system") m then rest else m ∷ rest

unfoldable pub any_tool : List Message → Bool
any_tool [] = false
any_tool (m ∷ ms) = has_role (codes "tool") m || any_tool ms

unfoldable pub nonempty_parts : List Str → List Str
nonempty_parts [] = []
nonempty_parts (p ∷ ps) = let rest = nonempty_parts ps in if empty p then rest else p ∷ rest

-- The system prompt goes into the first turn, which must be the user's.
unfoldable pub fold_system : List Str → List Message → Result (List Message)
fold_system [] turns = ok turns
fold_system (p ∷ ps) [] = ok []
fold_system (p ∷ ps) (m ∷ turns) =
    if not (has_role (codes "user") m)
    then err value_error
    else ok (
        record m {
          content = some (strip (join_lines (nonempty_parts (p ∷ ps)) ++ 10 ∷ 10 ∷ content_of m));
        }
        ∷ turns)

-- The turns alternate, the user's first if `user` says so.
unfoldable pub alternates : Bool → List Message → Bool
alternates user [] = true
alternates user (m ∷ turns) =
    has_role (if user then codes "user" else codes "assistant") m && alternates (not user) turns

unfoldable pub render_turns : Bool → List Message → Str
render_turns user [] = []
render_turns user (m ∷ turns) =
    let text = strip (content_of m) in
    let rest = render_turns (not user) turns in
    if user
    then codes "[INST] " ++ text ++ codes " [/INST]" ++ rest
    else codes " " ++ text ++ codes "</s>" ++ rest

unfoldable pub ends_with_assistant : List Message → Bool
ends_with_assistant [] = false
ends_with_assistant (m ∷ []) = has_role (codes "assistant") m
ends_with_assistant (m ∷ n ∷ ms) = ends_with_assistant (n ∷ ms)

abbrev render_folded : Bool → Bool → Result (List Message) → Result Str
render_folded add_bos add_generation_prompt (err e) = err e
render_folded add_bos add_generation_prompt (ok turns) =
    if not (alternates true turns)
    then err value_error
    else if ends_with_assistant turns && add_generation_prompt
    then err value_error
    else ok ((if add_bos then codes "<s>" else []) ++ render_turns true turns)

unfoldable pub render_mistral_prompt : List Message → Bool → Bool → Result Str
render_mistral_prompt messages add_bos add_generation_prompt =
    if empty messages
    then err value_error
    else let turns = without_system messages in
      if empty turns
      then err value_error
      else if any_tool turns
      then err value_error
      else render_folded add_bos add_generation_prompt (fold_system (system_parts messages) turns)

unfoldable pub estimate_tokens : Str → ℕ
estimate_tokens text = max 1 (length text / 4)
