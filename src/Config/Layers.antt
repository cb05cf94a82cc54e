-- ===== src/Config/Layers.antt =====
-- llm_serve/config.py: the overrides of the environment and of the command line, and `build_config`.
-- The YAML file enters as the mapping that `load_yaml` returns, with texts for keys.
use llm_serve.Prelude.{
  ℕ, Bool, true, false, not, Option, none, some, List, [], ◌∷◌, ◌++◌, Str, codes, Dict, lookup,
  insert, config_error, Result, ok, err, if◌then◌else◌, drop, length,
}
use llm_serve.Prelude.Results.{◌>>=◌}
use llm_serve.Api.Sse.{starts_with}
use llm_serve.Api.ChatTemplate.{strip, empty}
use llm_serve.Values.{str, Runtime}
use llm_serve.Values.Casts.{lower}
use llm_serve.Config.{Section, Config}
use llm_serve.Config.Sections.{default_config}
use llm_serve.Config.Coerce.{apply_section}
use llm_serve.Config.Validate.{validate}
use llm_serve.Config.Yaml.{Node, mapping, scalar}

abbrev pub env_prefix : Str
env_prefix = codes "LLM_SERVE_"

abbrev before : ℕ → Option (Str × Str) → Option (Str × Str)
before c none = none
before c (some (head, tail)) = some (c ∷ head, tail)

-- `s.split(mark, 1)`, or `none` where `mark` is not in `s`
unfoldable pub split_at : Str → Str → Option (Str × Str)
unfolding starts_with
split_at mark [] = if empty mark then some ([], []) else none
split_at mark (c ∷ s) =
    let rest = split_at mark s in
    if starts_with mark (c ∷ s) then some ([], drop (length mark) (c ∷ s)) else before c rest

abbrev or_empty : {A : Type 0} → Option (Dict A) → Dict A
or_empty none = []
or_empty (some d) = d

-- `out.setdefault(section, {})[option] = value`
unfoldable pub put_nested : {A : Type 0} → Str → Str → A → Dict (Dict A) → Dict (Dict A)
put_nested section name value out =
    insert section (insert name value (or_empty (lookup section out))) out

-- The section and the option that a variable is for
abbrev pub env_target : Str → Option (Str × Str)
env_target key =
    if not (starts_with env_prefix key)
    then none
    else split_at (codes "__") (lower (drop (length env_prefix) key))

module _ {Float : Type 0} where
  abbrev put_target : Option (Str × Str) → Str → Dict (Section Float) → Dict (Section Float)
  put_target none value out = out
  put_target (some (section, name)) value out = put_nested section name (str value) out

  unfoldable pub env_onto : Dict Str → Dict (Section Float) → Dict (Section Float)
  unfolding starts_with split_at lower put_nested
  env_onto [] out = out
  env_onto ((key, value) ∷ environ) out = env_onto environ (put_target (env_target key) value out)

  unfoldable pub env_overrides : Dict Str → Dict (Section Float)
  unfolding env_onto
  env_overrides environ = env_onto environ []

-- The section, the option and the value of one override
abbrev cli_named : Str → Option (Str × Str) → Result (Str × Str × Str)
cli_named value none = err config_error
cli_named value (some (section, name)) = ok (strip section, strip name, strip value)

abbrev cli_valued : Option (Str × Str) → Result (Str × Str × Str)
cli_valued none = err config_error
cli_valued (some (dotted, value)) = cli_named value (split_at (codes ".") dotted)

unfoldable pub cli_target : Str → Result (Str × Str × Str)
unfolding split_at
cli_target pair = cli_valued (split_at (codes "=") pair)

module _ {Float : Type 0} where
  abbrev put_cli : Str × Str × Str → Dict (Section Float) → Dict (Section Float)
  put_cli (section, name, value) out = put_nested section name (str value) out

  unfoldable pub cli_onto : List Str → Dict (Section Float) → Result (Dict (Section Float))
  unfolding put_nested
  cli_onto [] out = ok out
  cli_onto (pair ∷ pairs) out = cli_target pair >>= λ target. cli_onto pairs (put_cli target out)

  unfoldable pub parse_cli_overrides : List Str → Result (Dict (Section Float))
  unfolding cli_onto
  parse_cli_overrides pairs = cli_onto pairs []

  -- `{k: v for k, v in raw.items() if isinstance(v, dict)}`
  unfoldable pub mappings : Dict (Node Float) → Dict (Section Float)
  mappings [] = []
  mappings ((k, mapping fields) ∷ raw) = (k, fields) ∷ mappings raw
  mappings ((k, scalar v) ∷ raw) = mappings raw

  unfoldable pub any_stray : Dict (Node Float) → Bool
  any_stray [] = false
  any_stray ((k, mapping fields) ∷ raw) = any_stray raw
  any_stray ((k, scalar v) ∷ raw) = true

  unfoldable pub file_layers : Option (Dict (Node Float)) → Result (List (Dict (Section Float)))
  unfolding mappings any_stray
  file_layers none = ok []
  file_layers (some raw) = if any_stray raw then err config_error else ok (mappings raw ∷ [])

  unfoldable pub cli_layers : Option (List Str) → Result (List (Dict (Section Float)))
  unfolding parse_cli_overrides
  cli_layers none = ok []
  cli_layers (some pairs) = parse_cli_overrides pairs >>= λ layer. ok (layer ∷ [])

  -- The layers, from the weakest to the strongest.
  unfoldable pub layers_of :
      Option (Dict (Node Float))
      → Dict Str
      → Option (List Str)
      → Result (List (Dict (Section Float)))
  unfolding file_layers cli_layers env_overrides
  layers_of raw environ cli = file_layers raw >>= λ file.
      cli_layers cli >>= λ line. ok (file ++ env_overrides environ ∷ [] ++ line)

  module _ (R : Runtime Float) where
    abbrev pub apply_named :
        Str → Section Float → Config Float → Option (Section Float) → Result (Config Float)
    apply_named name values config none = err config_error
    apply_named name values config (some section) =
        apply_section R values section >>= λ changed. ok (insert name changed config)

    unfoldable pub apply_layer : Dict (Section Float) → Config Float → Result (Config Float)
    unfolding apply_section
    apply_layer [] config = ok config
    apply_layer ((name, values) ∷ layer) config =
        apply_named name values config (lookup name config) >>= λ changed. apply_layer layer changed

    unfoldable pub apply_layers : List (Dict (Section Float)) → Config Float → Result (Config Float)
    unfolding apply_layer
    apply_layers [] config = ok config
    apply_layers (layer ∷ layers) config =
        apply_layer layer config >>= λ changed. apply_layers layers changed

    unfoldable pub build_config :
        Option (Dict (Node Float)) → Dict Str → Option (List Str) → Result (Config Float)
    unfolding layers_of apply_layers default_config validate
    build_config raw environ cli = layers_of raw environ cli >>= λ layers.
        apply_layers layers (default_config R) >>= λ config. validate R config
