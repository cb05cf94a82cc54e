-- ===== src/Backends/Base/Kinds.antt =====
-- llm_serve/backends/base.py: the backend of a configuration.
use llm_serve.Prelude.{
  ◌≡◌, refl, sym, ap, ◌∙◌, true, false, Option, none, some, List, [], ◌∷◌, Str, codes, str_eq,
  str_eq_iff, eq_of_str_eq, Bool-cases, inl, inr, map, lookup, insert, Dict, ok, config_error,
  arith, is_in,
}
use llm_serve.Prelude.Results.{◌>>=◌, ensure, ensure_inv}
use llm_serve.Values.{Value, null, bool, int, float, str, list, dict, Runtime, is_text, is_one_of}
use llm_serve.Config.{Section, Config, attr}
use llm_serve.Config.Sections.{known_backends}
use llm_serve.Config.Validate.{validate_backend}
use llm_serve.Config.Layers.{build_config}
use llm_serve.Config.Yaml.{Node}
use llm_serve.Config.Options.{build_config_inv}
use llm_serve.Config.Checks.{checked_inv}
use llm_serve.Backends.Base.{
  BackendClass, mock_backend, vllm_backend, triton_backend, ray_backend, trtllm_backend, class_name,
  new_backend, registered, get_backend_class, configured_kind, create_backend,
}

abbrev pub all_backends : Dict BackendClass
all_backends =
    (codes "mock", mock_backend)
    ∷ (codes "vllm", vllm_backend)
    ∷ (codes "triton", triton_backend)
    ∷ (codes "ray", ray_backend)
    ∷ (codes "trtllm", trtllm_backend)
    ∷ []

registered-all : registered ≡ ok all_backends
unfolding registered lookup insert str_eq
registered-all = refl

class_by_name :
    (cs : List BackendClass) (k : Str)
    → is_in (map class_name cs) k ≡ true
    → (c : BackendClass) × (lookup k (map (λ c. (class_name c, c)) cs) ≡ some c)
      × (class_name c ≡ k)
unfolding lookup
class_by_name [] k h = cc
class_by_name (c ∷ cs) k h = elim (Bool-cases (str_eq (class_name c) k)) [
  | inl e ↦ (c, rw e refl, eq_of_str_eq (class_name c) k e)
  | inr e ↦
      let (d, found, same) =
        class_by_name cs k
          (ground (arith, str_eq_iff (class_name c) k, str_eq_iff k (class_name c), h, e)) in
      (d, rw e found, same)
]

class_of_known :
    (k : Str)
    → is_in known_backends k ≡ true
    → (c : BackendClass) × (lookup k all_backends ≡ some c) × (class_name c ≡ k)
class_of_known k h =
    class_by_name (mock_backend ∷ vllm_backend ∷ triton_backend ∷ ray_backend ∷ trtllm_backend ∷ [])
      k h

one_of_text :
    (Float : Type 0) (ts : List Str) (k : Str) → is_one_of {Float = Float} ts (str k) ≡ is_in ts k
one_of_text Float [] k = refl
one_of_text Float (t ∷ ts) k = rw (one_of_text Float ts k) refl

module _ {Float : Type 0} where
  no_text :
      (v : Value Float) (ts : List Str) → ((t : Str) → is_text t v ≡ false) → is_one_of ts v ≡ false
  no_text v [] h = refl
  no_text v (t ∷ ts) h = ground (arith, h t, no_text v ts h)

  known_text :
      (v : Value Float) (ts : List Str)
      → is_one_of ts v ≡ true
      → (k : Str) × (v ≡ str k) × (is_in ts k ≡ true)
  known_text (str k) ts h = (k, refl, sym (one_of_text Float ts k) ∙ h)
  known_text null ts h = absurd (ground (arith, no_text null ts (λ t. refl), h))
  known_text (bool b) ts h = absurd (ground (arith, no_text (bool b) ts (λ t. refl), h))
  known_text (int n) ts h = absurd (ground (arith, no_text (int n) ts (λ t. refl), h))
  known_text (float x) ts h = absurd (ground (arith, no_text (float x) ts (λ t. refl), h))
  known_text (list vs) ts h = absurd (ground (arith, no_text (list vs) ts (λ t. refl), h))
  known_text (dict fs) ts h = absurd (ground (arith, no_text (dict fs) ts (λ t. refl), h))

module _ {Float : Type 0} (R : Runtime Float) where
  backend_kind :
      (section : Section Float)
      → validate_backend R section ≡ ok tt
      → (k : Str) × (attr (codes "kind") section ≡ ok (str k)) × (is_in known_backends k ≡ true)
  unfolding validate_backend
  backend_kind section h =
      let (v, at, passed, rest) =
        checked_inv (codes "kind") section (λ v. ensure (is_one_of known_backends v) config_error) _
          h in
      let (k, e, known) =
        known_text v known_backends (ensure_inv (is_one_of known_backends v) config_error passed) in
      (k, at ∙ ap ok e, known)

  create_backend-kind :
      (config : Config Float) (k : Str) (c : BackendClass)
      → configured_kind config ≡ ok (str k)
      → lookup k all_backends ≡ some c
      → create_backend config none all_backends ≡ ok (new_backend config c)
  unfolding create_backend get_backend_class
  create_backend-kind config k c e found = rw e (rw found refl)

  -- For every configuration that `build_config` returns, the registrations of the module raise
  -- nothing and `create_backend` without a name returns a backend that is not started, of the
  -- class whose name is the configured kind: a configuration that was checked never meets
  -- BackendUnavailable for its name.
  pub create_backend-build_config :
      (raw : Option (Dict (Node Float))) (environ : Dict Str) (cli : Option (List Str))
      (config : Config Float)
      → build_config R raw environ cli ≡ ok config
      → (c : BackendClass) × (registered >>= create_backend config none ≡ ok (new_backend config c))
        × (configured_kind config ≡ ok (str (class_name c)))
  unfolding configured_kind
  create_backend-build_config raw environ cli config h =
      let (layers, read, applied, valid) = build_config_inv R raw environ cli h in
      let section : Section Float = valid.backend in
      let (k, at, known) = backend_kind section valid.backend_valid in
      let (c, found, same) = class_of_known k known in
      let kind : configured_kind config ≡ ok (str k) = rw (valid.backend_at) at in
      (
        c,
        ap (λ r. r >>= create_backend config none) registered-all
            ∙ create_backend-kind config k c kind found,
        kind ∙ ap (λ j. ok (str j)) (sym same),
      )
