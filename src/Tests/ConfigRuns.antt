-- ===== src/Tests/ConfigRuns.antt =====
-- Concrete runs of llm_serve/config.py, and the theorems on it.
use llm_serve.Prelude.{
  ℕ, ◌*◌, ◌≤◌, ◌≡◌, ◌≢◌, refl, Bool, true, not, ◌&&◌, ◌==◌, All, arith, some, none, List, [], ◌∷◌,
  ◌++◌, map, codes, Str, ℤ, pos, Dict, insert, lookup, str_eq, int_of_text, digits_from, type_error,
  Result, ok, err,
}
use llm_serve.Prelude.Results.{◌>>=◌}
use llm_serve.Values.{Value, int, str, float}
use llm_serve.Values.Order.{value_lt, value_eq}
use llm_serve.Config.{attr, Section, Config}
use llm_serve.Api.Sse.{is_space, starts_with}
use llm_serve.Api.ChatTemplate.{strip, strip_end, strip_start}
use llm_serve.Config.Coerce.{coerce}
use llm_serve.Config.Yaml.{
  Node, mapping, parse_simple_yaml, read_line, read_content, scalar_of, is_line_break,
}
use llm_serve.Config.Layers.{
  env_overrides, parse_cli_overrides, cli_target, file_layers, cli_layers, layers_of, build_config,
}
use llm_serve.Values.Casts.{lower}
use llm_serve.Config.Sections.{default_config}
use llm_serve.Config.Options.{FromFile, FromLine, Set, given_by, coerce_all, build_config-Set}
use llm_serve.Config.Names.{AllKnown, SameNames, build_config-Known}
use llm_serve.Config.Limits.{is_in_numbers, block_sizes, build_config-Limits}
use llm_serve.Config.Rates.{build_config-request_rate}
use llm_serve.Config.Targets.{
  Lacks, Setting, Clean, variable, argument, parse_cli_overrides-env_overrides,
}
use llm_serve.Config.Yaml.Lines.{Word, Key}
use llm_serve.Config.Yaml.Documents.{
  Block, document_lines, written, Unbroken, document_onto, parse_simple_yaml-written,
}
use llm_serve.Prelude.Results.{◌>>=◌}
use llm_serve.Backends.Base.{
  BackendClass, class_name, new_backend, registered, configured_kind, create_backend,
}
use llm_serve.Backends.Base.Kinds.{create_backend-build_config}
use llm_serve.Tests.Floats.{decimals}

abbrev file : Str
file =
    codes
      "# demo\nscheduler:\n  max_num_seqs: 64  # few\n  watermark: 0.05\nserver:\n  host: 'h:1'\n"

abbrev parsed : Dict (Node ℤ)
parsed =
    (
      codes "scheduler",
      mapping ((codes "max_num_seqs", int (pos 64)) ∷ (codes "watermark", float (pos 50)) ∷ []),
    )
    ∷ (codes "server", mapping ((codes "host", str (codes "h:1")) ∷ []))
    ∷ []

parse_simple_yaml-file : parse_simple_yaml decimals file ≡ ok parsed
unfolding parse_simple_yaml read_line read_content strip strip_end strip_start is_space insert
    str_eq lookup scalar_of int_of_text digits_from decimals
parse_simple_yaml-file = refl

abbrev environ : Dict Str
environ =
    (codes "PATH", codes "x")
    ∷ (codes "LLM_SERVE_SCHEDULER__MAX_NUM_SEQS", codes "32")
    ∷ (codes "LLM_SERVE_BACKEND__ENFORCE_EAGER", codes "yes")
    ∷ []

abbrev command_line : List Str
command_line = codes "scheduler.max_num_seqs = 16" ∷ codes "model.tokenizer=a=b" ∷ []

env_overrides_run :
    env_overrides {Float = ℤ} environ
    ≡ (codes "scheduler", (codes "max_num_seqs", str (codes "32")) ∷ [])
      ∷ (codes "backend", (codes "enforce_eager", str (codes "yes")) ∷ [])
      ∷ []
unfolding env_overrides insert str_eq lookup
env_overrides_run = refl

abbrev read : Config ℤ → Str → Str → Result (Value ℤ)
read config section name = attr section config >>= attr name

build_config_run :
    (build_config decimals (some parsed) environ (some command_line) >>= λ c.
    read c (codes "scheduler") (codes "max_num_seqs"))
    ≡ ok (int (pos 16))
unfolding build_config attr strip strip_end strip_start is_space insert str_eq lookup int_of_text
    digits_from coerce decimals cli_target value_lt value_eq starts_with
build_config_run = refl

request_rate_run :
    build_config decimals none [] (some (codes "bench.request_rate=5.0" ∷ [])) ≡ err type_error
unfolding build_config attr strip strip_end strip_start is_space insert str_eq lookup int_of_text
    digits_from coerce decimals cli_target value_lt value_eq starts_with
request_rate_run = refl

abbrev layered : List (Dict (Section ℤ))
layered =
    ((codes "scheduler", (codes "max_num_seqs", int (pos 64)) ∷ []) ∷ [])
    ∷ env_overrides environ
    ∷ ((codes "scheduler", (codes "max_num_seqs", str (codes "16")) ∷ []) ∷ [])
    ∷ []

abbrev small_file : Dict (Node ℤ)
small_file = (codes "scheduler", mapping ((codes "max_num_seqs", int (pos 64)) ∷ [])) ∷ []

abbrev small_line : List Str
small_line = codes "scheduler.max_num_seqs = 16" ∷ []

abbrev merged : Config ℤ
merged = config_of (build_config decimals (some small_file) environ (some small_line))
  where
    config_of : Result (Config ℤ) → Config ℤ
    config_of (ok c) = c
    config_of (err e) = []

abbrev file_part : List (Dict (Section ℤ))
file_part = ((codes "scheduler", (codes "max_num_seqs", int (pos 64)) ∷ []) ∷ []) ∷ []

abbrev line_part : List (Dict (Section ℤ))
line_part = ((codes "scheduler", (codes "max_num_seqs", str (codes "16")) ∷ []) ∷ []) ∷ []

parts_read :
    (file_layers (some small_file) ≡ ok file_part) × (cli_layers (some small_line) ≡ ok line_part)
unfolding file_layers cli_layers cli_target strip strip_end strip_start is_space insert str_eq
    lookup starts_with
parts_read = (refl, refl)

layered_read : layers_of (some small_file) environ (some small_line) ≡ ok layered
unfolding layers_of cli_target strip strip_end strip_start is_space insert str_eq lookup starts_with
layered_read = refl

merged_built : build_config decimals (some small_file) environ (some small_line) ≡ ok merged
unfolding build_config attr strip strip_end strip_start is_space insert str_eq lookup int_of_text
    digits_from coerce decimals cli_target value_lt value_eq starts_with
merged_built = refl

default_seqs :
    Set (codes "scheduler") (codes "max_num_seqs") (int (pos 256)) (default_config decimals)
unfolding default_config lookup str_eq
default_seqs = (_, refl, refl)

build_config-Set_example :
    FromFile (some small_file) file_part
    × FromLine (some small_line) line_part
    × ((new : Value ℤ) × Set (codes "scheduler") (codes "max_num_seqs") new merged
        × (coerce_all decimals
              (given_by (codes "scheduler") (codes "max_num_seqs") file_part
                ++ given_by (codes "scheduler") (codes "max_num_seqs") (env_overrides environ ∷ [])
                ++ given_by (codes "scheduler") (codes "max_num_seqs") line_part)
              (int (pos 256))
            ≡ ok new))
build_config-Set_example =
    build_config-Set decimals (some small_file) environ (some small_line) (codes "scheduler")
      (codes "max_num_seqs") (int (pos 256)) file_part line_part merged default_seqs parts_read.0
      parts_read.1 merged_built

build_config-Known_example :
    AllKnown (default_config decimals) layered × SameNames (default_config decimals) merged
build_config-Known_example =
    build_config-Known decimals (some small_file) environ (some small_line) layered merged
      layered_read merged_built

merged_limits :
    Set (codes "scheduler") (codes "block_size") (int (pos 16)) merged
    × Set (codes "scheduler") (codes "max_num_seqs") (int (pos 16)) merged
    × Set (codes "scheduler") (codes "max_num_batched_tokens") (int (pos 8192)) merged
    × Set (codes "model") (codes "max_model_len") (int (pos 8192)) merged
unfolding build_config attr strip strip_end strip_start is_space insert str_eq lookup int_of_text
    digits_from coerce decimals cli_target value_lt value_eq starts_with
merged_limits = ((_, refl, refl), (_, refl, refl), (_, refl, refl), (_, refl, refl))

build_config-Limits_example :
    (b n t l : ℕ) × (◌≡◌ {A = ℤ} (pos 16) (pos b))
    × (◌≡◌ {A = ℤ} (pos 16) (pos n))
    × (◌≡◌ {A = ℤ} (pos 8192) (pos t))
    × (◌≡◌ {A = ℤ} (pos 8192) (pos l))
    × (is_in_numbers block_sizes b ≡ true)
    × (1 ≤ n)
    × (128 ≤ l)
    × (b ≤ t)
    × (t ≤ l * n)
build_config-Limits_example =
    build_config-Limits decimals (some small_file) environ (some small_line) merged (pos 16)
      (pos 16) (pos 8192) (pos 8192) merged_built merged_limits.0 merged_limits.1 merged_limits.2
      merged_limits.3

abbrev rate_line : List Str
rate_line = codes "bench.request_rate=5.0" ∷ []

abbrev rate_layers : List (Dict (Section ℤ))
rate_layers = [] ∷ ((codes "bench", (codes "request_rate", str (codes "5.0")) ∷ []) ∷ []) ∷ []

rate_read : layers_of none [] (some rate_line) ≡ ok rate_layers
unfolding layers_of cli_target strip strip_end strip_start is_space insert str_eq lookup starts_with
rate_read = refl

rate_given :
    given_by (codes "bench") (codes "request_rate") rate_layers ≡ map str (codes "5.0" ∷ [])
unfolding given_by str_eq
rate_given = refl

build_config-request_rate_example :
    build_config decimals none [] (some rate_line) ≢ ok (default_config decimals)
build_config-request_rate_example =
    build_config-request_rate decimals none [] (some rate_line) rate_layers (codes "5.0") []
      (default_config decimals) rate_read rate_given

abbrev lacks : ℕ → Str → Bool
lacks c [] = true
lacks c (d ∷ s) = not (d == c) && lacks c s

lacks-Lacks : (c : ℕ) (s : Str) → lacks c s ≡ true → Lacks c s
lacks-Lacks c [] h = tt
lacks-Lacks c (d ∷ s) h = (ground (arith, h), lacks-Lacks c s (ground (arith, h)))

-- No character of the texts ends a line.
abbrev whole : Str → Bool
whole [] = true
whole (c ∷ s) = not (is_line_break c) && whole s

abbrev all_whole : List Str → Bool
all_whole [] = true
all_whole (l ∷ ls) = whole l && all_whole ls

whole-Unbroken : (s : Str) → whole s ≡ true → Unbroken s
whole-Unbroken [] h = tt
whole-Unbroken (c ∷ s) h = (ground (arith, h), whole-Unbroken s (ground (arith, h)))

abbrev setting : Setting
setting = record { section = codes "scheduler"; name = codes "max_num_seqs"; value = codes "16" }

setting-Clean : Clean setting
unfolding lower strip strip_end strip_start is_space
setting-Clean = record {
  no_underscore = lacks-Lacks b'_' (codes "scheduler") refl;
  no_dot = lacks-Lacks b'.' (codes "scheduler") refl;
  section_no_equals = lacks-Lacks b'=' (codes "scheduler") refl;
  name_no_equals = lacks-Lacks b'=' (codes "max_num_seqs") refl;
  section_lower = refl;
  name_lower = refl;
  section_stripped = refl;
  name_stripped = refl;
  value_stripped = refl;
}

parse_cli_overrides-env_overrides_example :
    parse_cli_overrides {Float = ℤ} (map argument (setting ∷ []))
    ≡ ok (env_overrides (map variable (setting ∷ [])))
parse_cli_overrides-env_overrides_example =
    parse_cli_overrides-env_overrides (setting ∷ []) (setting-Clean, tt)

abbrev block : Block
block = record {
  section = codes "server";
  options = (codes "port", codes "80") ∷ (codes "host", codes "'h'") ∷ [];
}

word_facts :
    Key (codes "server")
    × Key (codes "port")
    × Key (codes "host")
    × Word (codes "80")
    × Word (codes "'h'")
unfolding strip_end is_space
word_facts = (
  record {
    word = record {
      starts = refl;
      ends = refl;
      no_comment = lacks-Lacks b'#' (codes "server") refl;
    };
    no_colon = lacks-Lacks b':' (codes "server") refl;
  },
  record {
    word = record { starts = refl; ends = refl; no_comment = lacks-Lacks b'#' (codes "port") refl };
    no_colon = lacks-Lacks b':' (codes "port") refl;
  },
  record {
    word = record { starts = refl; ends = refl; no_comment = lacks-Lacks b'#' (codes "host") refl };
    no_colon = lacks-Lacks b':' (codes "host") refl;
  },
  record { starts = refl; ends = refl; no_comment = lacks-Lacks b'#' (codes "80") refl },
  record { starts = refl; ends = refl; no_comment = lacks-Lacks b'#' (codes "'h'") refl },
)

texts-Unbroken : (ls : List Str) → all_whole ls ≡ true → All Unbroken ls
texts-Unbroken [] h = tt
texts-Unbroken (l ∷ ls) h =
    (whole-Unbroken l (ground (arith, h)), texts-Unbroken ls (ground (arith, h)))

unbroken : All Unbroken (document_lines (block ∷ []))
unfolding document_lines
unbroken = texts-Unbroken (document_lines (block ∷ [])) refl

parse_simple_yaml-written_example :
    parse_simple_yaml decimals (written (document_lines (block ∷ [])))
    ≡ ok (document_onto decimals (block ∷ []) [])
parse_simple_yaml-written_example =
    parse_simple_yaml-written decimals (block ∷ [])
      ((word_facts.0, ((word_facts.1, word_facts.3), ((word_facts.2, word_facts.4), tt))), tt)
      unbroken

create_backend-build_config_example :
    (c : BackendClass) × (registered >>= create_backend merged none ≡ ok (new_backend merged c))
    × (configured_kind merged ≡ ok (str (class_name c)))
create_backend-build_config_example =
    create_backend-build_config decimals (some small_file) environ (some small_line) merged
      merged_built
