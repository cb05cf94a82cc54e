-- ===== src/Backends/Base.antt =====
-- llm_serve/backends/base.py: the registry of the backends, and what every backend starts with. The
-- modules of the classes are imported by the loaders, so a loader is the class that it returns.
use llm_serve.Prelude.{
  Bool, true, false, Option, none, some, is_some, List, [], ◌∷◌, map, Str, codes, Dict, lookup,
  insert, if◌then◌else◌, value_error, runtime_error, type_error, Result, ok, err,
}
use llm_serve.Prelude.Results.{◌>>=◌}
use llm_serve.Values.{Value, str, list, dict}
use llm_serve.Config.{Section, Config, attr}
pub mod Kinds

pub data BackendClass : Type 0 where
  mock_backend vllm_backend triton_backend ray_backend trtllm_backend : BackendClass

-- The `name` of each class
abbrev pub class_name : BackendClass → Str
class_name mock_backend = codes "mock"
class_name vllm_backend = codes "vllm"
class_name triton_backend = codes "triton"
class_name ray_backend = codes "ray"
class_name trtllm_backend = codes "trtllm"

-- The fields that the base class sets
pub record Backend (Float : Type 0) : Type 0 where
  pub cls : BackendClass
  pub config : Config Float
  pub started : Bool

pub record HealthStatus (Float : Type 0) : Type 0 where
  pub healthy : Bool
  pub backend : Str
  pub detail : Str
  pub model : Value Float

unfoldable pub register_backend :
    Str → BackendClass → Dict BackendClass → Result (Dict BackendClass)
register_backend name loader registry =
    if is_some (lookup name registry) then err value_error else ok (insert name loader registry)

-- The registrations of the module
unfoldable pub registered : Result (Dict BackendClass)
unfolding register_backend
registered =
    register_backend (codes "mock") mock_backend []
    >>= register_backend (codes "vllm") vllm_backend
    >>= register_backend (codes "triton") triton_backend
    >>= register_backend (codes "ray") ray_backend
    >>= register_backend (codes "trtllm") trtllm_backend

abbrev class_or_error : Option BackendClass → Result BackendClass
class_or_error none = err runtime_error
class_or_error (some c) = ok c

-- `BackendUnavailable` is a RuntimeError; a list or a dictionary is no key.
unfoldable pub get_backend_class :
    {Float : Type 0} → Value Float → Dict BackendClass → Result BackendClass
get_backend_class (str name) registry = class_or_error (lookup name registry)
get_backend_class (list vs) registry = err type_error
get_backend_class (dict fs) registry = err type_error
get_backend_class _ registry = err runtime_error

module _ {Float : Type 0} where
  abbrev pub new_backend : Config Float → BackendClass → Backend Float
  new_backend config cls = record { cls = cls; config = config; started = false }

  -- `config.backend.kind`
  unfoldable pub configured_kind : Config Float → Result (Value Float)
  unfolding attr
  configured_kind config = attr (codes "backend") config >>= attr (codes "kind")

  -- `name or config.backend.kind`
  abbrev pub chosen_kind : Config Float → Option Str → Result (Value Float)
  chosen_kind config (some (c ∷ name)) = ok (str (c ∷ name))
  chosen_kind config _ = configured_kind config

  unfoldable pub create_backend :
      Config Float → Option Str → Dict BackendClass → Result (Backend Float)
  unfolding get_backend_class configured_kind
  create_backend config name registry = chosen_kind config name >>= λ kind.
      get_backend_class kind registry >>= λ cls. ok (new_backend config cls)

  unfoldable pub start : Backend Float → Backend Float
  start b = record b { started = true }

  unfoldable pub stop : Backend Float → Backend Float
  stop b = record b { started = false }

  unfoldable pub health : Backend Float → Result (HealthStatus Float)
  unfolding attr
  health b = attr (codes "model") b.config >>= attr (codes "name") >>= λ model. ok (record {
    healthy = b.started;
    backend = class_name b.cls;
    detail = if b.started then codes "started" else codes "not started";
    model = model;
  })
