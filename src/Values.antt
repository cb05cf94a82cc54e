-- ===== src/Values.antt =====
-- Python values of any type, as configuration files and request bodies hold them. The type of the
-- floats is a parameter, and the built-in operations on it are the fields of `Runtime`.
use llm_serve.Prelude.{
  ℕ, Bool, true, false, not, ◌&&◌, ◌||◌, Option, none, some, List, [], ◌∷◌, ◌++◌, Str, str_eq, ℤ,
  pos, int_lt, int_eq, ◌==◌, if◌then◌else◌, Dict,
}
pub mod Order
pub mod Casts

mutual
  pub data Value (Float : Type 0) : Type 0 where
    null : Value Float
    bool : Bool → Value Float
    int : ℤ → Value Float
    float : Float → Value Float
    str : Str → Value Float
    list : Values Float → Value Float
    dict : Fields Float → Value Float

  pub data Values (Float : Type 0) : Type 0 where
    end : Values Float
    item : Value Float → Values Float → Values Float

  pub data Fields (Float : Type 0) : Type 0 where
    blank : Fields Float
    field : Str → Value Float → Fields Float → Fields Float

-- What the interpreter does with floats, and `repr` of a text.
pub record Runtime (Float : Type 0) : Type 0 where
  -- `literal m k` is m / 10 ** k, as the source spells it.
  pub literal : ℕ → ℕ → Float
  pub negative : Float → Float
  pub float_lt : Float → Float → Bool
  pub float_eq : Float → Float → Bool
  pub float_lt_int : Float → ℤ → Bool
  pub int_lt_float : ℤ → Float → Bool
  pub float_eq_int : Float → ℤ → Bool
  -- `float(text)`; `float(n)`, which may overflow; `int(x)`, which refuses what is not finite
  pub float_of_text : Str → Option Float
  pub float_of_int : ℤ → Option Float
  pub int_of_float : Float → Option ℤ
  pub show_float : Float → Str
  pub repr_text : Str → Str

module _ {Float : Type 0} where
  abbrev pub to_list : Values Float → List (Value Float)
  to_list end = []
  to_list (item v vs) = v ∷ to_list vs

  abbrev pub of_list : List (Value Float) → Values Float
  of_list [] = end
  of_list (v ∷ vs) = item v (of_list vs)

  abbrev pub to_dict : Fields Float → Dict (Value Float)
  to_dict blank = []
  to_dict (field k v fs) = (k, v) ∷ to_dict fs

  abbrev pub of_dict : Dict (Value Float) → Fields Float
  of_dict [] = blank
  of_dict ((k, v) ∷ d) = field k v (of_dict d)

  -- `isinstance(v, str)` and the like; a bool is an int too.
  abbrev pub is_null : Value Float → Bool
  is_null null = true
  is_null _ = false

  abbrev pub is_str : Value Float → Bool
  is_str (str s) = true
  is_str _ = false

  -- `v == "..."`
  abbrev pub is_text : Str → Value Float → Bool
  is_text t (str s) = str_eq s t
  is_text t _ = false

  abbrev pub is_one_of : List Str → Value Float → Bool
  is_one_of [] v = false
  is_one_of (t ∷ ts) v = is_text t v || is_one_of ts v

  abbrev zero_number : Runtime Float → Value Float → Bool
  zero_number R (bool b) = not b
  zero_number R (int n) = int_eq n (pos 0)
  zero_number R (float x) = R.float_eq_int x (pos 0)
  zero_number R _ = false

  -- `bool(v)`
  abbrev pub truthy : Runtime Float → Value Float → Bool
  truthy R null = false
  truthy R (str []) = false
  truthy R (list end) = false
  truthy R (dict blank) = false
  truthy R v = not (zero_number R v)
