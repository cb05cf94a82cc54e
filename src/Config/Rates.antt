-- ===== src/Config/Rates.antt =====
-- llm_serve/config.py: a request rate that comes as a text, from a variable or the command line.
use mathlib.Core.Path.{subst}
use llm_serve.Prelude.{
  ◌≡◌, ◌≢◌, refl, Option, some, List, [], ◌∷◌, map, Str, codes, Dict, lookup, str_eq, ok, arith,
  pos,
}
use llm_serve.Prelude.Results.{bind-ok_inv}
use llm_serve.Values.{Value, str, int, null, Runtime}
use llm_serve.Config.{Section, Config, attr}
use llm_serve.Config.Sections.{default_config}
use llm_serve.Config.Validate.{validate_bench, at_least, when_set, when_unset, positive}
use llm_serve.Config.Coerce.{coerce}
use llm_serve.Config.Yaml.{Node}
use llm_serve.Config.Layers.{layers_of, build_config}
use llm_serve.Config.Options.{Set, given_by, coerce_all, build_config_inv, apply_layers-Set}
use llm_serve.Config.Checks.{checked_inv, attr-lookup}
use llm_serve.Config.Limits.{Set-attr}

module _ {Float : Type 0} (R : Runtime Float) where
  coerce_all-texts :
      (ts : List Str) (u : Str) {new : Value Float}
      → coerce_all R (map str ts) (str u) ≡ ok new
      → (w : Str) × (new ≡ str w)
  unfolding coerce_all coerce
  coerce_all-texts [] u h = (u, cc)
  coerce_all-texts (t ∷ ts) u h = coerce_all-texts ts t h

  coerce_all-first_text :
      (t : Str) (ts : List Str) {new : Value Float}
      → coerce_all R (map str (t ∷ ts)) null ≡ ok new
      → (w : Str) × (new ≡ str w)
  unfolding coerce_all coerce
  coerce_all-first_text t ts h = coerce_all-texts ts t h

  validate_bench-text :
      (section : Section Float) (w : Str)
      → lookup (codes "request_rate") section ≡ some (str w)
      → validate_bench R section ≢ ok tt
  unfolding validate_bench
  validate_bench-text section w found h =
      let (c, c_at, c_ok, h1) =
        checked_inv (codes "concurrency") section (at_least R (int (pos 1))) _ h in
      let (d, d_at, h2) = bind-ok_inv (attr (codes "duration_s") section) _ h1 in
      let (n, n_at, h3) = bind-ok_inv (attr (codes "num_requests") section) _ h2 in
      let (u, u_ok, h4) = bind-ok_inv (when_unset d (at_least R (int (pos 1)) n)) _ h3 in
      let (rate, at, passed, h5) =
        checked_inv (codes "request_rate") section (λ v. when_set v (positive R v)) _ h4 in
      let text : rate ≡ str w = attr-lookup (codes "request_rate") section (str w) rate found at in
      cc (subst (λ v. when_set v (positive R v) ≡ ok tt) text passed)

  default_rate : Set (codes "bench") (codes "request_rate") null (default_config R)
  unfolding default_config lookup str_eq
  default_rate = (_, refl, refl)

  -- If all values that the layers give to `bench.request_rate` are texts, and there is one, as
  -- when it is set by a variable or on the command line alone, then `build_config` returns no
  -- configuration.
  pub build_config-request_rate :
      (raw : Option (Dict (Node Float))) (environ : Dict Str) (cli : Option (List Str))
      (layers : List (Dict (Section Float))) (t : Str) (ts : List Str) (config : Config Float)
      → layers_of raw environ cli ≡ ok layers
      → given_by (codes "bench") (codes "request_rate") layers ≡ map str (t ∷ ts)
      → build_config R raw environ cli ≢ ok config
  build_config-request_rate raw environ cli layers t ts config read texts h =
      let (same, read', applied, valid) = build_config_inv R raw environ cli h in
      let (rate, here, cast) =
        apply_layers-Set R (codes "bench") (codes "request_rate") layers null (default_config R)
          config default_rate (ground (arith, read, read', applied)) in
      let (w, text) =
        coerce_all-first_text t ts (subst (λ vs. coerce_all R vs null ≡ ok rate) texts cast) in
      let at : Set (codes "bench") (codes "request_rate") (str w) config =
        subst (λ v. Set (codes "bench") (codes "request_rate") v config) text here in
      validate_bench-text valid.bench w
        (Set-attr R _ _ (str w) config valid.bench at valid.bench_at) valid.bench_valid
