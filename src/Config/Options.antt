-- ===== src/Config/Options.antt =====
-- llm_serve/config.py: what one option goes through while the layers are applied.
use mathlib.Core.Path.{subst}
use llm_serve.Prelude.{
  ◌≡◌, refl, sym, ap, ◌∙◌, Option, none, some, List, [], ◌∷◌, ◌++◌, Str, str_eq, str_eq_iff, Dict,
  lookup, insert, lookup-insert, Result, ok, if◌then◌else◌, arith, Bool-cases, append-nil,
  append_assoc, inl, inr,
}
use llm_serve.Prelude.Results.{◌>>=◌, bind-ok_inv}
use llm_serve.Values.{Value, Runtime}
use llm_serve.Config.{Section, Config}
use llm_serve.Config.Sections.{default_config}
use llm_serve.Config.Validate.{validate}
use llm_serve.Config.Checks.{Valid, validate_inv}
use llm_serve.Config.Coerce.{coerce, set_option, apply_section}
use llm_serve.Config.Yaml.{Node}
use llm_serve.Config.Layers.{
  mappings, any_stray, parse_cli_overrides, file_layers, cli_layers, env_overrides, layers_of,
  apply_named, apply_layer, apply_layers, build_config,
}

-- The values under one key, in order.
unfoldable pub given : {A : Type 0} → Str → Dict A → List A
given k [] = []
given k ((j, v) ∷ d) = let rest = given k d in if str_eq j k then v ∷ rest else rest

given-cons :
    {A : Type 0} (k : Str) (p : Str × A) (d : Dict A)
    → given k (p ∷ d) ≡ given k (p ∷ []) ++ given k d
unfolding given
given-cons k (j, v) d = elim (Bool-cases (str_eq j k)) [ inl e ↦ rw e refl | inr e ↦ rw e refl ]

module _ {Float : Type 0} where
  -- The section has the option `o`, and its value is `v`.
  abbrev pub Has : Str → Value Float → Section Float → Type 0
  Has o v section = lookup o section ≡ some v

  -- The configuration has the section `s`, and that the option `o` with the value `v`.
  abbrev pub Set : Str → Str → Value Float → Config Float → Type 0
  Set s o v config = (section : Section Float) × (lookup s config ≡ some section) × Has o v section

  -- The values for option `o`: of some sections, of one layer, of several layers.
  unfoldable pub given_in : Str → List (Section Float) → List (Value Float)
  unfolding given
  given_in o [] = []
  given_in o (values ∷ sections) = given o values ++ given_in o sections

  unfoldable pub given_by : Str → Str → List (Dict (Section Float)) → List (Value Float)
  unfolding given_in
  given_by s o [] = []
  given_by s o (layer ∷ layers) = given_in o (given s layer) ++ given_by s o layers

  given_by-append :
      (s o : Str) (xs ys : List (Dict (Section Float)))
      → given_by s o (xs ++ ys) ≡ given_by s o xs ++ given_by s o ys
  unfolding given_by
  given_by-append s o [] ys = refl
  given_by-append s o (x ∷ xs) ys =
      rw (given_by-append s o xs ys)
        (sym (append_assoc (given_in o (given s x)) (given_by s o xs) (given_by s o ys)))

  pub given_by-layers :
      (s o : Str) (file : List (Dict (Section Float))) (env : Dict (Section Float))
      (line : List (Dict (Section Float)))
      → given_by s o (file ++ env ∷ [] ++ line)
        ≡ given_by s o file ++ given_by s o (env ∷ []) ++ given_by s o line
  given_by-layers s o file env line =
      given_by-append s o (file ++ env ∷ []) line
      ∙ ap (λ vs. vs ++ given_by s o line) (given_by-append s o file (env ∷ []))

  -- What the file and the command line give, if there is one.
  abbrev pub FromFile : Option (Dict (Node Float)) → List (Dict (Section Float)) → Type 0
  FromFile none file = file ≡ []
  FromFile (some raw) file = file ≡ mappings raw ∷ []

  abbrev pub FromLine : Option (List Str) → List (Dict (Section Float)) → Type 0
  FromLine none line = line ≡ []
  FromLine (some pairs) line =
      (layer : Dict (Section Float)) × (parse_cli_overrides pairs ≡ ok layer) × (line ≡ layer ∷ [])

  file_layers-FromFile :
      (raw : Option (Dict (Node Float))) (file : List (Dict (Section Float)))
      → file_layers raw ≡ ok file
      → FromFile raw file
  unfolding file_layers
  file_layers-FromFile none file h = cc
  file_layers-FromFile (some raw) file h = elim (Bool-cases (any_stray raw)) [
    | inl e ↦ absurd (ground (arith, e, h))
    | inr e ↦ ground (arith, e, h)
  ]

  cli_layers-FromLine :
      (cli : Option (List Str)) (line : List (Dict (Section Float)))
      → cli_layers cli ≡ ok line
      → FromLine cli line
  unfolding cli_layers
  cli_layers-FromLine none line h = cc
  cli_layers-FromLine (some pairs) line h =
      let (layer, read, put) =
        bind-ok_inv (parse_cli_overrides pairs) (λ layer. ok (layer ∷ [])) h in
      (layer, read, cc)

  layers_of_lem :
      (raw : Option (Dict (Node Float))) (environ : Dict Str) (cli : Option (List Str))
      (file line : List (Dict (Section Float)))
      → file_layers raw ≡ ok file
      → cli_layers cli ≡ ok line
      → layers_of raw environ cli ≡ ok (file ++ env_overrides environ ∷ [] ++ line)
  unfolding layers_of
  layers_of_lem raw environ cli file line h k = rw h (rw k refl)

  given_in-append :
      (o : Str) (xs ys : List (Section Float))
      → given_in o (xs ++ ys) ≡ given_in o xs ++ given_in o ys
  unfolding given_in
  given_in-append o [] ys = refl
  given_in-append o (x ∷ xs) ys =
      rw (given_in-append o xs ys) (sym (append_assoc (given o x) (given_in o xs) (given_in o ys)))

  pub given_in-cons :
      (s o : Str) (p : Str × Section Float) (layer : Dict (Section Float))
      → given_in o (given s (p ∷ layer))
        ≡ given_in o (given s (p ∷ [])) ++ given_in o (given s layer)
  given_in-cons s o p layer =
      rw (given-cons s p layer) (given_in-append o (given s (p ∷ [])) (given s layer))

module _ {Float : Type 0} (R : Runtime Float) where
  -- One value after the other, each cast to the type of what stands there.
  unfoldable pub coerce_all : List (Value Float) → Value Float → Result (Value Float)
  unfolding coerce
  coerce_all [] old = ok old
  coerce_all (v ∷ vs) old = coerce R v old >>= coerce_all vs

  pub coerce_all-append :
      (vs ws : List (Value Float)) (old : Value Float) {mid new : Value Float}
      → coerce_all vs old ≡ ok mid
      → coerce_all ws mid ≡ ok new
      → coerce_all (vs ++ ws) old ≡ ok new
  unfolding coerce_all
  coerce_all-append [] ws old h k = ground arith
  coerce_all-append (v ∷ vs) ws old h k =
      let (here, e, rest) = bind-ok_inv (coerce R v old) (coerce_all vs) h in
      rw e (coerce_all-append vs ws here rest k)

  pub set_option_inv :
      (key : Str) (value : Value Float) (section : Section Float) (o : Option (Value Float))
      {changed : Section Float}
      → set_option R key value section o ≡ ok changed
      → (old new : Value Float) × (o ≡ some old)
        × (coerce R value old ≡ ok new)
        × (changed ≡ insert key new section)
  set_option_inv key value section none h = cc
  set_option_inv key value section (some old) h =
      let (new, cast, put) =
        bind-ok_inv (coerce R value old) (λ new. ok (insert key new section)) h in
      (old, new, refl, cast, cc)

  set_option-Has :
      (key o : Str) (value v : Value Float) (section changed : Section Float)
      → Has o v section
      → set_option R key value section (lookup key section) ≡ ok changed
      → (new : Value Float) × Has o new changed
        × (coerce_all (given o ((key, value) ∷ [])) v ≡ ok new)
  unfolding coerce_all given
  set_option-Has key o value v section changed here h =
      let (old, new, found, cast, put) = set_option_inv key value section (lookup key section) h in
      elim (Bool-cases (str_eq key o)) [
        | inl same ↦
            let eq : key ≡ o = (str_eq_iff key o).0 same in
            let now : old ≡ v = ground (arith, ap (λ k. lookup k section) eq) in
            (
              new,
              ground (arith, put, lookup-insert key o new section),
              rw same (rw⁻¹ now (rw cast refl)),
            )
        | inr other ↦ (v, ground (arith, put, lookup-insert key o new section), rw other refl)
      ]

  coerced :
      (o : Str) (p : Str × Value Float) (overrides : Dict (Value Float)) (v : Value Float)
      {new : Value Float}
      → coerce_all (given o (p ∷ []) ++ given o overrides) v ≡ ok new
      → coerce_all (given o (p ∷ overrides)) v ≡ ok new
  coerced o p overrides v h = rw (given-cons o p overrides) h

  pub apply_section-Has :
      (o : Str) (overrides : Dict (Value Float)) (v : Value Float) (section changed : Section Float)
      → Has o v section
      → apply_section R overrides section ≡ ok changed
      → (new : Value Float) × Has o new changed × (coerce_all (given o overrides) v ≡ ok new)
  unfolding apply_section coerce_all given
  apply_section-Has o [] v section changed here h = (v, ground (arith, h), refl)
  apply_section-Has o ((key, value) ∷ overrides) v section changed here h =
      let (mid, step, rest) =
        bind-ok_inv (set_option R key value section (lookup key section))
          (apply_section R overrides) h in
      let (w, held, one) = set_option-Has key o value v section mid here step in
      let (new, kept, more) = apply_section-Has o overrides w mid changed held rest in
      (
        new,
        kept,
        coerced o (key, value) overrides v
            (coerce_all-append (given o ((key, value) ∷ [])) (given o overrides) v one more),
      )

  layered :
      (s o : Str) (p : Str × Section Float) (layer : Dict (Section Float)) (v : Value Float)
      {new : Value Float}
      → coerce_all (given_in o (given s (p ∷ [])) ++ given_in o (given s layer)) v ≡ ok new
      → coerce_all (given_in o (given s (p ∷ layer))) v ≡ ok new
  layered s o p layer v h = rw (given_in-cons s o p layer) h

  pub apply_named_inv :
      (name : Str) (values : Section Float) (config : Config Float) (found : Option (Section Float))
      {changed : Config Float}
      → apply_named R name values config found ≡ ok changed
      → (old new : Section Float) × (found ≡ some old)
        × (apply_section R values old ≡ ok new)
        × (changed ≡ insert name new config)
  apply_named_inv name values config none h = cc
  apply_named_inv name values config (some old) h =
      let (new, applied, put) =
        bind-ok_inv (apply_section R values old) (λ new. ok (insert name new config)) h in
      (old, new, refl, applied, cc)

  apply_named-Set :
      (name s o : Str) (values : Section Float) (v : Value Float) (config changed : Config Float)
      → Set s o v config
      → apply_named R name values config (lookup name config) ≡ ok changed
      → (new : Value Float) × Set s o new changed
        × (coerce_all (given_in o (given s ((name, values) ∷ []))) v ≡ ok new)
  unfolding coerce_all given given_in
  apply_named-Set name s o values v config changed (section, here, has) h =
      let (old, renewed, found, applied, put) =
        apply_named_inv name values config (lookup name config) h in
      elim (Bool-cases (str_eq name s)) [
        | inl same ↦
            let eq : name ≡ s = (str_eq_iff name s).0 same in
            let now : old ≡ section = ground (arith, ap (λ k. lookup k config) eq) in
            let (new, held, cast) =
              apply_section-Has o values v old renewed (subst (Has o v) (sym now) has) applied in
            (
              new,
              (renewed, ground (arith, put, lookup-insert name s renewed config), held),
              rw (same, append-nil (given o values)) cast,
            )
        | inr other ↦ (
          v,
          (section, ground (arith, put, lookup-insert name s renewed config), has),
          rw other refl,
        )
      ]

  apply_layer-Set :
      (s o : Str) (layer : Dict (Section Float)) (v : Value Float) (config changed : Config Float)
      → Set s o v config
      → apply_layer R layer config ≡ ok changed
      → (new : Value Float) × Set s o new changed
        × (coerce_all (given_in o (given s layer)) v ≡ ok new)
  unfolding apply_layer coerce_all given given_in
  apply_layer-Set s o [] v config changed here h =
      (v, (here.0, ground (arith, h, here.1), here.2), refl)
  apply_layer-Set s o ((name, values) ∷ layer) v config changed here h =
      let (mid, step, rest) =
        bind-ok_inv (apply_named R name values config (lookup name config)) (apply_layer R layer)
          h in
      let (w, held, one) = apply_named-Set name s o values v config mid here step in
      let (new, kept, more) = apply_layer-Set s o layer w mid changed held rest in
      (
        new,
        kept,
        layered s o (name, values) layer v
            (coerce_all-append (given_in o (given s ((name, values) ∷ [])))
              (given_in o (given s layer)) v one more),
      )

  pub apply_layers-Set :
      (s o : Str) (layers : List (Dict (Section Float))) (v : Value Float)
      (config changed : Config Float)
      → Set s o v config
      → apply_layers R layers config ≡ ok changed
      → (new : Value Float) × Set s o new changed × (coerce_all (given_by s o layers) v ≡ ok new)
  unfolding apply_layers coerce_all given_by
  apply_layers-Set s o [] v config changed here h =
      (v, (here.0, ground (arith, h, here.1), here.2), refl)
  apply_layers-Set s o (layer ∷ layers) v config changed here h =
      let (mid, step, rest) = bind-ok_inv (apply_layer R layer config) (apply_layers R layers) h in
      let (w, held, one) = apply_layer-Set s o layer v config mid here step in
      let (new, kept, more) = apply_layers-Set s o layers w mid changed held rest in
      (new, kept, coerce_all-append (given_in o (given s layer)) (given_by s o layers) v one more)

  pub build_config_inv :
      (raw : Option (Dict (Node Float))) (environ : Dict Str) (cli : Option (List Str))
      {config : Config Float}
      → build_config R raw environ cli ≡ ok config
      → (layers : List (Dict (Section Float))) × (layers_of raw environ cli ≡ ok layers)
        × (apply_layers R layers (default_config R) ≡ ok config)
        × Valid R config
  unfolding build_config
  build_config_inv raw environ cli h =
      let (layers, read, rest) =
        bind-ok_inv (layers_of raw environ cli)
          (λ layers. apply_layers R layers (default_config R) >>= validate R) h in
      let (config, applied, checked) =
        bind-ok_inv (apply_layers R layers (default_config R)) (validate R) rest in
      let (valid, same) = validate_inv R config checked in
      (
        layers,
        read,
        subst (λ c. apply_layers R layers (default_config R) ≡ ok c) same applied,
        subst (Valid R) same valid,
      )

  -- If `build_config` returns a configuration, each option of the default configuration refines
  -- the abstract view in which every option is on its own: its value is its default after the
  -- values that the file gives it, then those of the environment, then those of the command line,
  -- each coerced to the type of what stood there, whatever else is set. The file, if there is one,
  -- gives its mappings, and the command line, if there is one, what `parse_cli_overrides` reads of
  -- it.
  pub build_config-Set :
      (raw : Option (Dict (Node Float))) (environ : Dict Str) (cli : Option (List Str)) (s o : Str)
      (v : Value Float) (file line : List (Dict (Section Float))) (config : Config Float)
      → Set s o v (default_config R)
      → file_layers raw ≡ ok file
      → cli_layers cli ≡ ok line
      → build_config R raw environ cli ≡ ok config
      → FromFile raw file
        × FromLine cli line
        × ((new : Value Float) × Set s o new config
            × (coerce_all
                  (given_by s o file
                    ++ given_by s o (env_overrides environ ∷ [])
                    ++ given_by s o line)
                  v
                ≡ ok new))
  build_config-Set raw environ cli s o v file line config here file_read line_read h =
      let layers : List (Dict (Section Float)) = file ++ env_overrides environ ∷ [] ++ line in
      let read = layers_of_lem raw environ cli file line file_read line_read in
      let (new, set, cast) =
        (let (same, read', applied, checked) = build_config_inv raw environ cli h in
          apply_layers-Set s o layers v (default_config R) config here
            (ground (arith, read, read', applied))) in
      (
        file_layers-FromFile raw file file_read,
        cli_layers-FromLine cli line line_read,
        (
          new,
          set,
          ap (λ vs. coerce_all vs v) (sym (given_by-layers s o file (env_overrides environ) line))
              ∙ cast,
        ),
      )
