-- ===== src/Metrics/Registry.antt =====
-- llm_serve/metrics/registry.py. The type of the values is a parameter, with the operations on it in `Amounts`.
use llm_serve.Prelude.{
  ℕ, zero, suc, ◌+◌, ◌==◌, Bool, true, false, not, ◌&&◌, ◌||◌, Option, none, some, is_some, List,
  [], ◌∷◌, ◌++◌, map, length, replicate, Str, codes, str_eq, Dict, lookup, insert, ℤ, show_int,
  if◌then◌else◌, value_error, Result, ok, err,
}
use llm_serve.Prelude.Results.{◌>>=◌, ensure}
use llm_serve.Api.Sse.{join_lines}
use llm_serve.Api.ChatTemplate.{empty}
pub mod Labels
pub mod Reader
pub mod Buckets

-- What the code does with values: `whole` gives those that print as integers.
pub record Amounts (Num : Type 0) : Type 0 where
  pub nothing : Num
  pub one : Num
  pub plus : Num → Num → Num
  pub opposite : Num → Num
  pub negative : Num → Bool
  pub at_most : Num → Num → Bool
  pub of_count : ℕ → Num
  pub whole : Num → Option ℤ
  pub repr : Num → Str

abbrev pub LabelKey : Type 0
LabelKey = List (Str × Str)

-- `s.replace(c, text)`, for a character
unfoldable pub replace : ℕ → Str → Str → Str
replace c text [] = []
replace c text (d ∷ s) = let rest = replace c text s in if d == c then text ++ rest else d ∷ rest

unfoldable pub escape : Str → Str
unfolding replace
escape value =
    replace b'\n' (codes "\\n") (replace b'"' (codes "\\\"") (replace b'\\' (codes "\\\\") value))

abbrev pub label_text : Str × Str → Str
label_text (name, value) = name ++ (codes "=\"" ++ (escape value ++ codes "\""))

abbrev pub label_rest : LabelKey → Str
label_rest [] = []
label_rest (l ∷ key) = codes "," ++ (label_text l ++ label_rest key)

unfoldable pub format_label_key : LabelKey → Str
unfolding escape
format_label_key [] = []
format_label_key (l ∷ key) = codes "{" ++ (label_text l ++ (label_rest key ++ codes "}"))

-- A value, or `INF`
pub data Bound (Num : Type 0) : Type 0 where
  finite : Num → Bound Num
  infinite : Bound Num

abbrev pub key_eq : LabelKey → LabelKey → Bool
key_eq [] [] = true
key_eq ((m, v) ∷ j) ((n, w) ∷ k) = (str_eq m n && str_eq v w) && key_eq j k
key_eq _ _ = false

module _ {V : Type 0} where
  -- `values.get(key)` and `values[key] = v`
  unfoldable pub find_key : LabelKey → List (LabelKey × V) → Option V
  find_key k [] = none
  find_key k ((j, v) ∷ d) = if key_eq j k then some v else find_key k d

  unfoldable pub put_key : LabelKey → V → List (LabelKey × V) → List (LabelKey × V)
  put_key k v [] = (k, v) ∷ []
  put_key k v ((j, w) ∷ d) = if key_eq j k then (j, v) ∷ d else (j, w) ∷ put_key k v d

  abbrev pub or_else : V → Option V → V
  or_else v none = v
  or_else v (some w) = w

pub data Kind : Type 0 where
  counter gauge histogram : Kind

-- A metric object of one of the three classes; only a histogram has bounds and counts.
pub record Metric (Num : Type 0) : Type 0 where
  pub kind : Kind
  pub name : Str
  pub documentation : Str
  pub labelnames : List Str
  pub values : List (LabelKey × Num)
  pub bounds : List Num
  pub counts : List (LabelKey × List ℕ)
  pub sums : List (LabelKey × Num)

abbrev is_in_names : List Str → Str → Bool
is_in_names [] s = false
is_in_names (n ∷ ns) s = str_eq n s || is_in_names ns s

abbrev names_known : List Str → Dict Str → Bool
names_known names [] = true
names_known names ((k, v) ∷ labels) = is_in_names names k && names_known names labels

-- The labels in the order of the names; a name that is missing has no key.
unfoldable pub ordered_key : List Str → Dict Str → Result LabelKey
ordered_key [] labels = ok []
ordered_key (name ∷ names) labels = elim (lookup name labels) [
  | none ↦ err value_error
  | some v ↦ ordered_key names labels >>= λ key. ok ((name, v) ∷ key)
]

abbrev pub no_counts : {Num : Type 0} → List Num → List ℕ
no_counts bounds = replicate (suc (length bounds)) 0

abbrev pub with_inf : {Num : Type 0} → List Num → List (Bound Num)
with_inf bounds = map finite bounds ++ infinite ∷ []

-- `list(zip(xs, ys))`
abbrev pub zip : {B C : Type 0} → List B → List C → List (B × C)
zip [] ys = []
zip (x ∷ xs) [] = []
zip (x ∷ xs) (y ∷ ys) = (x, y) ∷ zip xs ys

module _ {Num : Type 0} (A : Amounts Num) where
  unfoldable pub format_value : Bound Num → Str
  format_value infinite = codes "+Inf"
  format_value (finite x) = elim (A.whole x) [ none ↦ A.repr x | some n ↦ show_int n ]

  -- `_key`: the sets of the names are equal.
  unfoldable pub key_of : Metric Num → Dict Str → Result LabelKey
  unfolding ordered_key
  key_of m labels =
      ensure (names_known m.labelnames labels) value_error >>= λ _. ordered_key m.labelnames labels

  abbrev pub add_value : Num → Metric Num → LabelKey → Metric Num
  add_value amount m key = record m {
    values = put_key key (A.plus (or_else A.nothing (find_key key m.values)) amount) m.values;
  }

  -- `Counter.inc`, `Gauge.set`, `Gauge.inc`, `Gauge.dec` and `value`
  unfoldable pub inc_counter : Num → Dict Str → Metric Num → Result (Metric Num)
  unfolding key_of put_key find_key
  inc_counter amount labels m =
      if A.negative amount
      then err value_error
      else key_of m labels >>= λ key. ok (add_value amount m key)

  unfoldable pub set_gauge : Num → Dict Str → Metric Num → Result (Metric Num)
  unfolding key_of put_key
  set_gauge value labels m =
      key_of m labels >>= λ key. ok (record m { values = put_key key value m.values })

  unfoldable pub inc_gauge : Num → Dict Str → Metric Num → Result (Metric Num)
  unfolding key_of put_key find_key
  inc_gauge amount labels m = key_of m labels >>= λ key. ok (add_value amount m key)

  unfoldable pub dec_gauge : Num → Dict Str → Metric Num → Result (Metric Num)
  unfolding inc_gauge
  dec_gauge amount labels m = inc_gauge (A.opposite amount) labels m

  unfoldable pub value_of : Dict Str → Metric Num → Result Num
  unfolding key_of find_key
  value_of labels m = key_of m labels >>= λ key. ok (or_else A.nothing (find_key key m.values))

  -- No bound is below the one before it.
  unfoldable pub ascends : List Num → Bool
  ascends [] = true
  ascends (b ∷ []) = true
  ascends (b ∷ c ∷ bs) = A.at_most b c && ascends (c ∷ bs)

  -- The counts with one more at each bound that is not below the value; the last one is of all values.
  unfoldable pub bump : Num → List Num → List ℕ → List ℕ
  bump value bounds [] = []
  bump value [] (n ∷ ns) = (n + 1) ∷ ns
  bump value (b ∷ bounds) (n ∷ ns) = (if A.at_most value b then n + 1 else n) ∷ bump value bounds ns

  abbrev pub observed : Num → Metric Num → LabelKey → Metric Num
  observed value m key = record m {
    counts =
        put_key key (bump value m.bounds (or_else (no_counts m.bounds) (find_key key m.counts)))
          m.counts;
    sums = put_key key (A.plus (or_else A.nothing (find_key key m.sums)) value) m.sums;
  }

  unfoldable pub observe : Num → Dict Str → Metric Num → Result (Metric Num)
  unfolding key_of put_key find_key bump
  observe value labels m = key_of m labels >>= λ key. ok (observed value m key)

  unfoldable pub observe_all : List Num → Dict Str → Metric Num → Result (Metric Num)
  unfolding observe
  observe_all [] labels m = ok m
  observe_all (x ∷ xs) labels m = observe x labels m >>= observe_all xs labels

  unfoldable pub buckets : Dict Str → Metric Num → Result (List (Bound Num × ℕ))
  unfolding key_of find_key
  buckets labels m = key_of m labels >>= λ key.
      ok (zip (with_inf m.bounds) (or_else (no_counts m.bounds) (find_key key m.counts)))
