-- ===== src/Metrics/Registry/Reader.antt =====
-- llm_serve/metrics/registry.py: the labels of a sample read back from the text.
use llm_serve.Prelude.{
  ℕ, ◌≡◌, refl, ap, ◌∙◌, false, ◌==◌, Option, none, some, [], ◌∷◌, ◌++◌, append_assoc, append-nil,
  Str, codes, if◌then◌else◌, arith,
}
use llm_serve.Metrics.Registry.{LabelKey, escape, label_text, label_rest, format_label_key}
use llm_serve.Metrics.Registry.Labels.{escaped, escape_each, escape-escape_each}

-- Where a reader of the text format is, with the name and the value as far as they are read.
pub data Place : Type 0 where
  in_name : Str → Place
  opening : Str → Place
  in_value : Str → Str → Place
  in_escape : Str → Str → Place
  between : Place

pub data Step : Type 0 where
  go : Place → Step
  label : Str → Str → Step
  finish refuse : Step

abbrev pub escaped_as : ℕ → ℕ
escaped_as c = if c == b'n' then b'\n' else c

unfoldable pub step : Place → ℕ → Step
step (in_name n) c = if c == b'=' then go (opening n) else go (in_name (n ++ c ∷ []))
step (opening n) c = if c == b'"' then go (in_value n []) else refuse
step (in_value n v) c =
    if c == b'"'
    then label n v
    else if c == b'\\'
    then go (in_escape n v)
    else go (in_value n (v ++ c ∷ []))
step (in_escape n v) c = go (in_value n (v ++ escaped_as c ∷ []))
step between c = if c == b',' then go (in_name []) else if c == b'}' then finish else refuse

abbrev pub with_label : Str × Str → Option (LabelKey × Str) → Option (LabelKey × Str)
with_label l none = none
with_label l (some (key, rest)) = some (l ∷ key, rest)

unfoldable pub read_from : Place → Str → Option (LabelKey × Str)
unfolding step
read_from p [] = none
read_from p (c ∷ s) = elim (step p c) [
  | go q ↦ read_from q s
  | label n v ↦ with_label (n, v) (read_from between s)
  | finish ↦ some ([], s)
  | refuse ↦ none
]

-- The labels at the front of a text, and the text after them.
unfoldable pub read_labels : Str → Option (LabelKey × Str)
unfolding read_from
read_labels [] = some ([], [])
read_labels (c ∷ s) = if c == b'{' then read_from (in_name []) s else some ([], c ∷ s)

-- No `=` in a name
abbrev pub IsName : Str → Type 0
IsName [] = Unit
IsName (c ∷ s) = (c == b'=' ≡ false) × IsName s

abbrev pub AreNamed : LabelKey → Type 0
AreNamed [] = Unit
AreNamed ((name, value) ∷ key) = IsName name × AreNamed key

read_from-name :
    (n m t : Str)
    → IsName m
    → read_from (in_name n) (m ++ (codes "=\"" ++ t)) ≡ read_from (in_value (n ++ m) []) t
unfolding read_from step
read_from-name n [] t h = rw (append-nil n) refl
read_from-name n (c ∷ m) t h =
    rw (h.0, read_from)
      (read_from-name (n ++ c ∷ []) m t (h.1)
        ∙ ap (λ k. read_from (in_value k []) t) (append_assoc n (c ∷ []) m))

-- One character of a value, as it is written
read_from-escaped :
    (n v : Str) (c : ℕ) (t : Str)
    → read_from (in_value n v) (escaped c ++ t) ≡ read_from (in_value n (v ++ c ∷ [])) t
unfolding read_from step
read_from-escaped n v c t = ground arith

read_from-value :
    (n v w t : Str)
    → read_from (in_value n v) (escape_each w ++ (codes "\"" ++ t))
      ≡ with_label (n, v ++ w) (read_from between t)
unfolding escape_each read_from step
read_from-value n v [] t = rw (append-nil v) refl
read_from-value n v (c ∷ w) t =
    ap (read_from (in_value n v)) (append_assoc (escaped c) (escape_each w) (codes "\"" ++ t))
    ∙ read_from-escaped n v c (escape_each w ++ (codes "\"" ++ t))
    ∙ read_from-value n (v ++ c ∷ []) w t
    ∙ ap (λ u. with_label (n, u) (read_from between t)) (append_assoc v (c ∷ []) w)

label_text-append :
    (n v t : Str)
    → label_text (n, v) ++ t ≡ n ++ (codes "=\"" ++ (escape_each v ++ (codes "\"" ++ t)))
label_text-append n v t =
    append_assoc n (codes "=\"" ++ (escape v ++ codes "\"")) t
    ∙ ap (λ u. n ++ (codes "=\"" ++ u))
        (append_assoc (escape v) (codes "\"") t
          ∙ ap (λ u. u ++ (codes "\"" ++ t)) (escape-escape_each v))

read_from-label_text :
    (n v t : Str)
    → IsName n
    → read_from (in_name []) (label_text (n, v) ++ t) ≡ with_label (n, v) (read_from between t)
read_from-label_text n v t h =
    ap (read_from (in_name [])) (label_text-append n v t)
    ∙ read_from-name [] n (escape_each v ++ (codes "\"" ++ t)) h
    ∙ read_from-value n [] v t

read_from-label_rest :
    (key : LabelKey) (t : Str)
    → AreNamed key
    → read_from between (label_rest key ++ (codes "}" ++ t)) ≡ some (key, t)
unfolding read_from step
read_from-label_rest [] t h = refl
read_from-label_rest ((n, v) ∷ key) t h =
    ap (read_from (in_name [])) (append_assoc (label_text (n, v)) (label_rest key) (codes "}" ++ t))
    ∙ read_from-label_text n v (label_rest key ++ (codes "}" ++ t)) (h.0)
    ∙ ap (with_label (n, v)) (read_from-label_rest key t (h.1))

-- A reader of the text format gets the labels of a sample back from their text before a space and
-- any further text, and leaves that text: whatever the values are, quotes, backslashes and
-- newlines included, if no label name has an equals sign.
pub read_labels-format_label_key :
    (key : LabelKey) (t : Str)
    → AreNamed key
    → read_labels (format_label_key key ++ (codes " " ++ t)) ≡ some (key, codes " " ++ t)
unfolding read_labels format_label_key
read_labels-format_label_key [] t h = refl
read_labels-format_label_key ((n, v) ∷ key) t h =
    ap (read_from (in_name [])) (
      append_assoc (label_text (n, v)) (label_rest key ++ codes "}") (codes " " ++ t)
      ∙ ap (λ u. label_text (n, v) ++ u)
          (append_assoc (label_rest key) (codes "}") (codes " " ++ t)))
    ∙ read_from-label_text n v (label_rest key ++ (codes "}" ++ (codes " " ++ t))) (h.0)
    ∙ ap (with_label (n, v)) (read_from-label_rest key (codes " " ++ t) (h.1))
