-- ===== src/Config/Targets.antt =====
-- llm_serve/config.py: the names that variables and command-line overrides are read as.
use llm_serve.Prelude.{
  ℕ, ◌≡◌, refl, ap, ◌∙◌, true, false, ◌==◌, some, List, [], ◌∷◌, ◌++◌, map, Str, codes, Dict, All,
  ok, arith, drop, length,
}
use llm_serve.Api.Sse.{starts_with}
use llm_serve.Api.ChatTemplate.{strip}
use llm_serve.Values.Casts.{lower}
use llm_serve.Config.{Section}
use llm_serve.Config.Layers.{
  cli_onto, env_onto, parse_cli_overrides, env_overrides, split_at, env_prefix, env_target,
  cli_target,
}

-- The character `c` does not stand in the text.
abbrev pub Lacks : ℕ → Str → Type 0
Lacks c [] = Unit
Lacks c (d ∷ s) = ((d == c) ≡ false) × Lacks c s

starts_with-append : (p s : Str) → starts_with p (p ++ s) ≡ true
unfolding starts_with
starts_with-append [] s = refl
starts_with-append (c ∷ p) s = ground (arith, starts_with-append p s)

drop-append : (p s : Str) → drop (length p) (p ++ s) ≡ s
drop-append [] s = refl
drop-append (c ∷ p) s = ground (arith, drop-append p s)

-- A text is cut at the first mark, here one that starts with `c`.
split_at-append :
    (c : ℕ) (mark s t : Str)
    → Lacks c s
    → split_at (c ∷ mark) (s ++ ((c ∷ mark) ++ t)) ≡ some (s, t)
unfolding split_at starts_with
split_at-append c mark [] t h = ground (arith, starts_with-append mark t, drop-append mark t)
split_at-append c mark (d ∷ s) t h = ground (arith, h.0, split_at-append c mark s t h.1)

lower-append : (s t : Str) → lower (s ++ t) ≡ lower s ++ lower t
unfolding lower
lower-append [] t = refl
lower-append (c ∷ s) t = rw (lower-append s t) refl

pub Lacks-append : (c : ℕ) (s t : Str) → Lacks c s → Lacks c t → Lacks c (s ++ t)
Lacks-append c [] t h k = k
Lacks-append c (d ∷ s) t h k = (h.0, Lacks-append c s t h.1 k)

-- One setting, and its spellings as a variable and on the command line.
pub record Setting : Type 0 where
  pub section : Str
  pub name : Str
  pub value : Str

abbrev pub variable : Setting → Str × Str
variable x = (env_prefix ++ (x.section ++ (codes "__" ++ x.name)), x.value)

abbrev pub argument : Setting → Str
argument x = (x.section ++ (codes "." ++ x.name)) ++ (codes "=" ++ x.value)

-- The names are in lower case, the texts have no space around them, and no mark stands too early.
pub record Clean (x : Setting) : Type 0 where
  pub no_underscore : Lacks b'_' x.section
  pub no_dot : Lacks b'.' x.section
  pub section_no_equals : Lacks b'=' x.section
  pub name_no_equals : Lacks b'=' x.name
  pub section_lower : lower x.section ≡ x.section
  pub name_lower : lower x.name ≡ x.name
  pub section_stripped : strip x.section ≡ x.section
  pub name_stripped : strip x.name ≡ x.name
  pub value_stripped : strip x.value ≡ x.value

env_target-prefixed :
    (key : Str) → env_target (env_prefix ++ key) ≡ split_at (codes "__") (lower key)
unfolding starts_with
env_target-prefixed key = refl

env_target-variable : (x : Setting) → Clean x → env_target (variable x).0 ≡ some (x.section, x.name)
unfolding lower
env_target-variable x c =
    let low : lower (x.section ++ (codes "__" ++ x.name)) ≡ x.section ++ (codes "__" ++ x.name) =
      rw (lower-append x.section (codes "__" ++ x.name))
        (rw c.section_lower (rw c.name_lower refl)) in
    env_target-prefixed (x.section ++ (codes "__" ++ x.name))
    ∙ ap (split_at (codes "__")) low
    ∙ split_at-append b'_' (codes "_") x.section x.name c.no_underscore

cli_target-argument :
    (x : Setting) → Clean x → cli_target (argument x) ≡ ok (x.section, x.name, x.value)
unfolding cli_target
cli_target-argument x c =
    let dotted : Lacks b'=' (x.section ++ (codes "." ++ x.name)) =
      Lacks-append b'=' x.section (codes "." ++ x.name) c.section_no_equals
        (refl, c.name_no_equals) in
    rw (split_at-append b'=' [] (x.section ++ (codes "." ++ x.name)) x.value dotted) (
      rw (split_at-append b'.' [] x.section x.name c.no_dot)
        (rw c.section_stripped (rw c.name_stripped (rw c.value_stripped refl))))

module _ {Float : Type 0} where
  env_onto-cli_onto :
      (xs : List Setting) (out : Dict (Section Float))
      → All Clean xs
      → cli_onto (map argument xs) out ≡ ok (env_onto (map variable xs) out)
  unfolding cli_onto env_onto
  env_onto-cli_onto [] out h = refl
  env_onto-cli_onto (x ∷ xs) out h =
      rw (cli_target-argument x h.0)
        (rw (env_onto, env_target-variable x h.0) (env_onto-cli_onto xs _ h.1))

  -- Settings that are written as `section.option=value` on the command line are read as the same
  -- overrides as those that are written as variables `LLM_SERVE_section__option`, if the names are
  -- in lower case and hold no mark too early, and no text has a space around it.
  pub parse_cli_overrides-env_overrides :
      (xs : List Setting)
      → All Clean xs
      → parse_cli_overrides {Float = Float} (map argument xs) ≡ ok (env_overrides (map variable xs))
  unfolding parse_cli_overrides env_overrides
  parse_cli_overrides-env_overrides xs h = env_onto-cli_onto xs [] h
