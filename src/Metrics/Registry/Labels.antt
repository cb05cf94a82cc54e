-- ===== src/Metrics/Registry/Labels.antt =====
-- llm_serve/metrics/registry.py: the text of labels.
use llm_serve.Prelude.{
  ℕ, ◌≡◌, refl, sym, ap, ◌∙◌, ◌==◌, [], ◌∷◌, ◌++◌, append_assoc, Str, codes, if◌then◌else◌,
  Bool-cases, inl, inr, arith,
}
use llm_serve.Metrics.Registry.{replace, escape}

-- How one character is written in a label value.
abbrev pub escaped : ℕ → Str
escaped c =
    if c == b'\\'
    then codes "\\\\"
    else if c == b'"'
    then codes "\\\""
    else if c == b'\n'
    then codes "\\n"
    else c ∷ []

unfoldable pub escape_each : Str → Str
escape_each [] = []
escape_each (c ∷ s) = escaped c ++ escape_each s

replace-append :
    (c : ℕ) (text s t : Str) → replace c text (s ++ t) ≡ replace c text s ++ replace c text t
unfolding replace
replace-append c text [] t = refl
replace-append c text (d ∷ s) t = elim (Bool-cases (d == c)) [
  | inl e ↦ rw e (
      ap (λ u. text ++ u) (replace-append c text s t)
      ∙ sym (append_assoc text (replace c text s) (replace c text t)))
  | inr e ↦ rw e (ap (λ u. d ∷ u) (replace-append c text s t))
]

-- The three passes over one character.
escape-one : (c : ℕ) → escape (c ∷ []) ≡ escaped c
unfolding escape replace
escape-one c = ground arith

replace-cons :
    (c : ℕ) (text : Str) (d : ℕ) (s : Str)
    → replace c text (d ∷ s) ≡ replace c text (d ∷ []) ++ replace c text s
replace-cons c text d s = replace-append c text (d ∷ []) s

escape-cons : (c : ℕ) (s : Str) → escape (c ∷ s) ≡ escape (c ∷ []) ++ escape s
unfolding escape
escape-cons c s = rw (replace-cons b'\\' (codes "\\\\") c s) (
    rw
      (replace-append b'"' (codes "\\\"") (replace b'\\' (codes "\\\\") (c ∷ []))
        (replace b'\\' (codes "\\\\") s))
      (replace-append b'\n' (codes "\\n")
        (replace b'"' (codes "\\\"") (replace b'\\' (codes "\\\\") (c ∷ [])))
        (replace b'"' (codes "\\\"") (replace b'\\' (codes "\\\\") s))))

pub escape-escape_each : (s : Str) → escape s ≡ escape_each s
unfolding escape_each escape replace
escape-escape_each [] = refl
escape-escape_each (c ∷ s) =
    escape-cons c s
    ∙ ap (λ u. u ++ escape s) (escape-one c)
    ∙ ap (λ u. escaped c ++ u) (escape-escape_each s)
