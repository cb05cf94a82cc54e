-- ===== src/Values/Order.antt =====
-- `==` and `<` on values: numbers with numbers, texts with texts, lists item by item; `<` on anything
-- else is a TypeError.
use llm_serve.Prelude.{
  ℕ, ◌+◌, ◌==◌, Bool, true, false, not, ◌&&◌, List, [], ◌∷◌, Option, none, some, Str, str_eq,
  str_lt, ℤ, pos, int_lt, int_eq, if◌then◌else◌, type_error, Result, ok, err,
}
use llm_serve.Prelude.Results.{◌>>=◌}
use llm_serve.Values.{
  Value, null, bool, int, float, str, list, dict, Values, end, item, Fields, blank, field, Runtime,
}

-- A number: the two values of `bool` are 1 and 0.
pub data Number (Float : Type 0) : Type 0 where
  whole : ℤ → Number Float
  real : Float → Number Float

module _ {Float : Type 0} where
  abbrev pub number_of : Value Float → Option (Number Float)
  number_of (bool true) = some (whole (pos 1))
  number_of (bool false) = some (whole (pos 0))
  number_of (int n) = some (whole n)
  number_of (float x) = some (real x)
  number_of _ = none

module _ {Float : Type 0} (R : Runtime Float) where
  abbrev pub number_lt : Number Float → Number Float → Bool
  number_lt (whole m) (whole n) = int_lt m n
  number_lt (whole m) (real y) = R.int_lt_float m y
  number_lt (real x) (whole n) = R.float_lt_int x n
  number_lt (real x) (real y) = R.float_lt x y

  abbrev pub number_eq : Number Float → Number Float → Bool
  number_eq (whole m) (whole n) = int_eq m n
  number_eq (whole m) (real y) = R.float_eq_int y m
  number_eq (real x) (whole n) = R.float_eq_int x n
  number_eq (real x) (real y) = R.float_eq x y

  abbrev pub number_le : Number Float → Number Float → Bool
  number_le x y = if number_lt x y then true else number_eq x y

  abbrev numbers_eq : Option (Number Float) → Option (Number Float) → Bool
  numbers_eq (some x) (some y) = number_eq x y
  numbers_eq (some x) none = false
  numbers_eq none o = false

  abbrev find_field : Str → Fields Float → Option (Value Float)
  find_field k blank = none
  find_field k (field j v fs) = if str_eq j k then some v else find_field k fs

  abbrev size : Fields Float → ℕ
  size blank = 0
  size (field k v fs) = 1 + size fs

  unfoldable mutual
    pub value_eq : Value Float → Value Float → Bool
    value_eq null null = true
    value_eq (str s) (str t) = str_eq s t
    value_eq (list vs) (list ws) = values_eq vs ws
    value_eq (dict fs) (dict gs) = size fs == size gs && fields_in fs gs
    value_eq v w = numbers_eq (number_of v) (number_of w)

    pub values_eq : Values Float → Values Float → Bool
    values_eq end end = true
    values_eq (item v vs) (item w ws) = value_eq v w && values_eq vs ws
    values_eq _ _ = false

    pub fields_in : Fields Float → Fields Float → Bool
    fields_in blank gs = true
    fields_in (field k v fs) gs =
        elim (find_field k gs) [ none ↦ false | some w ↦ value_eq v w ] && fields_in fs gs

  abbrev numbers_lt : Option (Number Float) → Option (Number Float) → Result Bool
  numbers_lt (some x) (some y) = ok (number_lt x y)
  numbers_lt (some x) none = err type_error
  numbers_lt none o = err type_error

  unfoldable mutual
    unfolding value_eq

    pub value_lt : Value Float → Value Float → Result Bool
    value_lt (str s) (str t) = ok (str_lt s t)
    value_lt (list vs) (list ws) = values_lt vs ws
    value_lt v w = numbers_lt (number_of v) (number_of w)

    pub values_lt : Values Float → Values Float → Result Bool
    values_lt vs end = ok false
    values_lt end (item w ws) = ok true
    values_lt (item v vs) (item w ws) =
        let rest = values_lt vs ws in let here = value_lt v w in if value_eq v w then rest else here

  -- `v <= w` on numbers
  abbrev numbers_le : Option (Number Float) → Option (Number Float) → Result Bool
  numbers_le (some x) (some y) = ok (number_le x y)
  numbers_le (some x) none = err type_error
  numbers_le none o = err type_error

  -- `v <= w`, where `w` is a number
  abbrev pub value_le : Value Float → Value Float → Result Bool
  value_le v w = numbers_le (number_of v) (number_of w)

  -- `list(vs) == sorted(vs)`: the sort is stable, so no neighbour may be the smaller one.
  unfoldable pub ascending : List (Value Float) → Result Bool
  ascending [] = ok true
  ascending (v ∷ []) = ok true
  ascending (v ∷ w ∷ vs) = do
    descends ← value_lt w v
    rest ← ascending (w ∷ vs)
    ok (not descends && rest)
