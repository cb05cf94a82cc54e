-- ===== src/Config/Names.antt =====
-- llm_serve/config.py: the names of sections and options that the layers may use.
use mathlib.Core.Path.{subst}
use llm_serve.Prelude.{
  ◌≡◌, sym, ◌∙◌, Bool, true, false, Option, none, some, is_some, List, [], ◌∷◌, Str, str_eq_iff,
  Dict, lookup, insert, lookup-insert, ok, arith,
}
use llm_serve.Prelude.Results.{bind-ok_inv}
use llm_serve.Values.{Value, Runtime}
use llm_serve.Config.{Section, Config}
use llm_serve.Config.Sections.{default_config}
use llm_serve.Config.Coerce.{set_option, apply_section}
use llm_serve.Config.Yaml.{Node}
use llm_serve.Config.Layers.{layers_of, apply_named, apply_layer, apply_layers, build_config}
use llm_serve.Config.Options.{set_option_inv, apply_named_inv, build_config_inv}

module _ {Float : Type 0} where
  abbrev option_of : Option (Section Float) → Str → Bool
  option_of none o = false
  option_of (some section) o = is_some (lookup o section)

  abbrev pub has_section : Config Float → Str → Bool
  has_section config s = is_some (lookup s config)

  abbrev pub has_option : Config Float → Str → Str → Bool
  has_option config s o = option_of (lookup s config) o

  -- Every key of the values is an option of section `s`.
  abbrev pub KnownOptions : Config Float → Str → Dict (Value Float) → Type 0
  KnownOptions config s [] = Unit
  KnownOptions config s ((o, v) ∷ values) =
      (has_option config s o ≡ true) × KnownOptions config s values

  abbrev pub KnownNames : Config Float → Dict (Section Float) → Type 0
  KnownNames config [] = Unit
  KnownNames config ((s, values) ∷ layer) =
      (has_section config s ≡ true) × KnownOptions config s values × KnownNames config layer

  abbrev pub AllKnown : Config Float → List (Dict (Section Float)) → Type 0
  AllKnown config [] = Unit
  AllKnown config (layer ∷ layers) = KnownNames config layer × AllKnown config layers

  -- Two configurations with the same names.
  abbrev pub SameNames : Config Float → Config Float → Type 0
  SameNames c d =
      ((s : Str) → has_section c s ≡ has_section d s)
      × ((s o : Str) → has_option c s o ≡ has_option d s o)

  KnownOptions-SameNames :
      (c d : Config Float) (s : Str) (values : Dict (Value Float))
      → SameNames c d
      → KnownOptions d s values
      → KnownOptions c s values
  KnownOptions-SameNames c d s [] same known = tt
  KnownOptions-SameNames c d s ((o, v) ∷ values) same known =
      (same.1 s o ∙ known.0, KnownOptions-SameNames c d s values same known.1)

  KnownNames-SameNames :
      (c d : Config Float) (layer : Dict (Section Float))
      → SameNames c d
      → KnownNames d layer
      → KnownNames c layer
  KnownNames-SameNames c d [] same known = tt
  KnownNames-SameNames c d ((s, values) ∷ layer) same known = (
    same.0 s ∙ known.0,
    KnownOptions-SameNames c d s values same known.1,
    KnownNames-SameNames c d layer same known.2,
  )

  AllKnown-SameNames :
      (c d : Config Float) (layers : List (Dict (Section Float)))
      → SameNames c d
      → AllKnown d layers
      → AllKnown c layers
  AllKnown-SameNames c d [] same known = tt
  AllKnown-SameNames c d (layer ∷ layers) same known =
      (KnownNames-SameNames c d layer same known.0, AllKnown-SameNames c d layers same known.1)

module _ {Float : Type 0} (R : Runtime Float) where
  set_option-names :
      (key : Str) (value : Value Float) (section changed : Section Float)
      → set_option R key value section (lookup key section) ≡ ok changed
      → (is_some (lookup key section) ≡ true)
        × ((o : Str) → is_some (lookup o changed) ≡ is_some (lookup o section))
  set_option-names key value section changed h =
      let (old, new, found, cast, put) =
        set_option_inv R key value section (lookup key section) h in
      (
        ground (arith, found),
        λ o. ground (arith, put, found, lookup-insert key o new section, str_eq_iff key o),
      )

  -- The options that the values name, in one section.
  abbrev AllOptions : Section Float → Dict (Value Float) → Type 0
  AllOptions section [] = Unit
  AllOptions section ((o, v) ∷ values) =
      (is_some (lookup o section) ≡ true) × AllOptions section values

  AllOptions-same :
      (c d : Section Float) (values : Dict (Value Float))
      → ((o : Str) → is_some (lookup o d) ≡ is_some (lookup o c))
      → AllOptions d values
      → AllOptions c values
  AllOptions-same c d [] same known = tt
  AllOptions-same c d ((o, v) ∷ values) same known =
      (sym (same o) ∙ known.0, AllOptions-same c d values same known.1)

  apply_section-names :
      (values : Dict (Value Float)) (section changed : Section Float)
      → apply_section R values section ≡ ok changed
      → AllOptions section values
        × ((o : Str) → is_some (lookup o changed) ≡ is_some (lookup o section))
  unfolding apply_section
  apply_section-names [] section changed h = (tt, λ o. ground (arith, h))
  apply_section-names ((key, value) ∷ values) section changed h =
      let (mid, step, rest) =
        bind-ok_inv (set_option R key value section (lookup key section)) (apply_section R values)
          h in
      let (here, kept) = set_option-names key value section mid step in
      let (more, same) = apply_section-names values mid changed rest in
      ((here, AllOptions-same section mid values kept more), λ o. same o ∙ kept o)

  AllOptions-KnownOptions :
      (config : Config Float) (s : Str) (section : Section Float) (values : Dict (Value Float))
      → lookup s config ≡ some section
      → AllOptions section values
      → KnownOptions config s values
  AllOptions-KnownOptions config s section [] found known = tt
  AllOptions-KnownOptions config s section ((o, v) ∷ values) found known =
      (rw found known.0, AllOptions-KnownOptions config s section values found known.1)

  SameNames-insert :
      (name : Str) (old new : Section Float) (config : Config Float)
      → lookup name config ≡ some old
      → ((o : Str) → is_some (lookup o new) ≡ is_some (lookup o old))
      → SameNames config (insert name new config)
  SameNames-insert name old new config found same = (
    λ s. ground (arith, found, lookup-insert name s new config, str_eq_iff name s),
    λ s o. ground (arith, found, lookup-insert name s new config, str_eq_iff name s, same o),
  )

  apply_layer-Known :
      (layer : Dict (Section Float)) (config changed : Config Float)
      → apply_layer R layer config ≡ ok changed
      → KnownNames config layer × SameNames config changed
  unfolding apply_layer
  apply_layer-Known [] config changed h = (tt, (λ s. ground (arith, h), λ s o. ground (arith, h)))
  apply_layer-Known ((name, values) ∷ layer) config changed h =
      let (mid, step, rest) =
        bind-ok_inv (apply_named R name values config (lookup name config)) (apply_layer R layer)
          h in
      let (old, new, found, applied, put) =
        apply_named_inv R name values config (lookup name config) step in
      let (options, kept) = apply_section-names values old new applied in
      let here : SameNames config mid =
        subst (SameNames config) (sym put) (SameNames-insert name old new config found kept) in
      let (more, same) = apply_layer-Known layer mid changed rest in
      (
        (
          ground (arith, found),
          AllOptions-KnownOptions config name old values found options,
          KnownNames-SameNames config mid layer here more,
        ),
        (λ s. here.0 s ∙ same.0 s, λ s o. here.1 s o ∙ same.1 s o),
      )

  apply_layers-Known :
      (layers : List (Dict (Section Float))) (config changed : Config Float)
      → apply_layers R layers config ≡ ok changed
      → AllKnown config layers × SameNames config changed
  unfolding apply_layers
  apply_layers-Known [] config changed h = (tt, (λ s. ground (arith, h), λ s o. ground (arith, h)))
  apply_layers-Known (layer ∷ layers) config changed h =
      let (mid, step, rest) = bind-ok_inv (apply_layer R layer config) (apply_layers R layers) h in
      let (known, here) = apply_layer-Known layer config mid step in
      let (more, same) = apply_layers-Known layers mid changed rest in
      (
        (known, AllKnown-SameNames config mid layers here more),
        (λ s. here.0 s ∙ same.0 s, λ s o. here.1 s o ∙ same.1 s o),
      )

  -- If `build_config` returns a configuration, then every section that any of its layers names is
  -- one of the default configuration and every option one of that section, so that an unknown name
  -- in any layer is refused; and the configuration has the sections and the options of the default
  -- one, no more and no fewer.
  pub build_config-Known :
      (raw : Option (Dict (Node Float))) (environ : Dict Str) (cli : Option (List Str))
      (layers : List (Dict (Section Float))) (config : Config Float)
      → layers_of raw environ cli ≡ ok layers
      → build_config R raw environ cli ≡ ok config
      → AllKnown (default_config R) layers × SameNames (default_config R) config
  build_config-Known raw environ cli layers config read h =
      let (same, read', applied, valid) = build_config_inv R raw environ cli h in
      apply_layers-Known layers (default_config R) config (ground (arith, read, read', applied))
