-- ===== src/Config/Yaml.antt =====
-- llm_serve/config.py: `_scalar` and `_parse_simple_yaml`.
use llm_serve.Prelude.{
  ℕ, zero, suc, leb, length, Bool, true, false, not, ◌&&◌, ◌||◌, ◌==◌, Option, none, some, List, [],
  ◌∷◌, ◌++◌, Str, codes, is_in, Dict, lookup, insert, config_error, ℤ, Result, ok, err,
  if◌then◌else◌, int_of_text,
}
use llm_serve.Prelude.Results.{◌>>=◌}
use llm_serve.Api.Sse.{is_space, push}
use llm_serve.Api.ChatTemplate.{strip, strip_end, empty}
use llm_serve.Values.{Value, null, bool, int, float, str, list, Values, end, item, Runtime, of_list}
use llm_serve.Config.Coerce.{split_on}
pub mod Lines
pub mod Documents
pub mod Nesting

-- What stands at a top-level key: a mapping, or a value of another type.
pub data Node (Float : Type 0) : Type 0 where
  mapping : Dict (Value Float) → Node Float
  scalar : Value Float → Node Float

-- `text[1:-1]`
unfoldable pub but_last : Str → Str
but_last [] = []
but_last (c ∷ []) = []
but_last (c ∷ d ∷ s) = c ∷ but_last (d ∷ s)

unfoldable pub last_is : ℕ → Str → Bool
last_is c [] = false
last_is c (d ∷ []) = d == c
last_is c (d ∷ e ∷ s) = last_is c (e ∷ s)

abbrev starts_with : ℕ → Str → Bool
starts_with c [] = false
starts_with c (d ∷ s) = d == c

abbrev pub rest_of : Str → Str
rest_of [] = []
rest_of (c ∷ s) = s

-- The text stands between two marks `c`, and there are two of them unless one is enough.
abbrev quoted : ℕ → Str → Bool
quoted c s = starts_with c s && last_is c s

-- `raw.split("#", 1)[0]`
unfoldable pub uncommented : Str → Str
uncommented [] = []
uncommented (c ∷ s) = let rest = uncommented s in if c == b'#' then [] else c ∷ rest

-- `s.partition(":")`, less the mark
unfoldable pub partition : ℕ → Str → Str × Str
partition mark [] = ([], [])
partition mark (c ∷ s) =
    let rest = partition mark s in if c == mark then ([], s) else (c ∷ rest.0, rest.1)

abbrev pub indented : Str → Bool
indented [] = false
indented (c ∷ s) = is_space c

abbrev pub is_line_break : ℕ → Bool
is_line_break c =
    (leb 10 c && leb c 13) || (leb 28 c && leb c 30) || c == 133 || c == 8232 || c == 8233

-- `text.splitlines()`, up to lines that are empty
unfoldable pub lines_of : Str → List Str
lines_of [] = [] ∷ []
lines_of (c ∷ s) = let rest = lines_of s in if is_line_break c then [] ∷ rest else push c rest

-- What the loop over the lines keeps: `root`, and the key of the mapping that is `current`.
pub record Reader (Float : Type 0) : Type 0 where
  pub root : Dict (Node Float)
  pub current : Option Str

module _ {Float : Type 0} where
  abbrev fields_at : Option (Node Float) → Dict (Value Float)
  fields_at (some (mapping fields)) = fields
  fields_at _ = []

  -- `current[key] = value`: `current` is the mapping that `root` has at its key.
  abbrev pub put_in : Str → Value Float → Reader Float → Option Str → Result (Reader Float)
  put_in key value r none = err config_error
  put_in key value r (some section) =
      let fields = insert key value (fields_at (lookup section r.root)) in
      ok (record r { root = insert section (mapping fields) r.root })

module _ {Float : Type 0} (R : Runtime Float) where
  abbrev or_text : Str → Option Float → Value Float
  or_text s none = str s
  or_text s (some x) = float x

  abbrev number_or_text : Str → Option ℤ → Value Float
  number_or_text s none = or_text s (R.float_of_text s)
  number_or_text s (some n) = int n

  abbrev plain : Str → Value Float
  plain s =
      if quoted b'\'' s || quoted b'"' s
      then str (but_last (rest_of s))
      else number_or_text s (int_of_text s)

  -- The scalar `s`, with the list of items that its brackets hold, if it is a bracketed text
  unfoldable pub scalar_or : Value Float → Str → Value Float
  unfolding last_is but_last
  scalar_or items s =
      if is_in (codes "null" ∷ codes "~" ∷ [] ∷ []) s
      then null
      else if is_in (codes "true" ∷ codes "True" ∷ []) s
      then bool true
      else if is_in (codes "false" ∷ codes "False" ∷ []) s
      then bool false
      else if starts_with b'[' s && last_is b']' s
      then items
      else plain s

  abbrev pub each : (Str → Value Float) → List Str → Values Float
  each f [] = end
  each f (p ∷ ps) = item (f p) (each f ps)

  abbrev pub items_of : (Str → Value Float) → Str → Value Float
  items_of f [] = list end
  items_of f (c ∷ s) = list (each (λ p. f (strip p)) (split_on b',' (c ∷ s)))

  -- The fuel bounds how deep the brackets nest.
  unfoldable pub scalar_within : ℕ → Str → Value Float
  unfolding scalar_or split_on
  scalar_within zero s = null
  scalar_within (suc fuel) s =
      scalar_or (items_of (scalar_within fuel) (strip (but_last (rest_of s)))) s

  -- `_scalar`
  unfoldable pub scalar_of : Str → Value Float
  unfolding scalar_within
  scalar_of s = scalar_within (suc (length s)) s

  abbrev pub put_top : Str → Str → Reader Float → Reader Float
  put_top key [] r = record r { root = insert key (mapping []) r.root; current = some key }
  put_top key (c ∷ val) r = record r {
    root = insert key (scalar (scalar_of (c ∷ val))) r.root;
    current = none;
  }

  -- The line without its comment and the spaces after it
  unfoldable pub read_content : Str → Reader Float → Result (Reader Float)
  unfolding partition
  read_content line r =
      let parts = partition b':' (strip line) in
      if empty (strip line)
      then ok r
      else if indented line
      then put_in parts.0 (scalar_of (strip parts.1)) r r.current
      else ok (put_top parts.0 (strip parts.1) r)

  unfoldable pub read_line : Str → Reader Float → Result (Reader Float)
  unfolding uncommented
  read_line raw r = read_content (strip_end (uncommented raw)) r

  unfoldable pub read_lines : List Str → Reader Float → Result (Reader Float)
  read_lines [] r = ok r
  read_lines (raw ∷ lines) r = read_line raw r >>= read_lines lines

  abbrev pub start : Reader Float
  start = record { root = []; current = none }

  unfoldable pub parse_simple_yaml : Str → Result (Dict (Node Float))
  unfolding read_lines lines_of
  parse_simple_yaml text = read_lines (lines_of text) start >>= λ r. ok r.root
