-- ===== src/Config.antt =====
-- llm_serve/config.py: the configuration. A section object is the dictionary of its attributes, in the
-- order of its fields, and the configuration that of its sections; the attributes hold any value.
use llm_serve.Prelude.{Option, none, some, Str, Dict, lookup, attribute_error, Result, ok, err}
use llm_serve.Values.{Value}
pub mod Sections
pub mod Validate
pub mod Coerce
pub mod Yaml
pub mod Layers
pub mod Options
pub mod Checks
pub mod Limits
pub mod Targets
pub mod Rates
pub mod Names

abbrev pub Section : Type 0 → Type 0
Section Float = Dict (Value Float)

abbrev pub Config : Type 0 → Type 0
Config Float = Dict (Section Float)

-- `getattr(section, name)`
unfoldable pub attr : {A : Type 0} → Str → Dict A → Result A
attr name section = elim (lookup name section) [ none ↦ err attribute_error | some v ↦ ok v ]
