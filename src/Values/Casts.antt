-- ===== src/Values/Casts.antt =====
-- `str`, `int`, `float` and `bool` of a value, with what each refuses.
use llm_serve.Prelude.{
  ℕ, ◌+◌, leb, ◌&&◌, true, false, Option, none, some, List, [], ◌∷◌, ◌++◌, Str, codes, ℤ, pos,
  show_int, int_of_text, if◌then◌else◌, value_error, type_error, overflow_error, Error, Result, ok,
  err,
}
use llm_serve.Api.ChatTemplate.{strip}
use llm_serve.Values.{
  Value, null, bool, int, float, str, list, dict, Values, end, item, Fields, blank, field, Runtime,
  to_list,
}

abbrev lower_char : ℕ → ℕ
lower_char c = if leb b'A' c && leb c b'Z' then c + 32 else c

-- `text.lower()`, of ASCII text
unfoldable pub lower : Str → Str
lower [] = []
lower (c ∷ s) = lower_char c ∷ lower s

abbrev pub raise_none : {A : Type 0} → Error → Option A → Result A
raise_none e none = err e
raise_none e (some a) = ok a

module _ {Float : Type 0} where
  abbrev characters : Str → List (Value Float)
  characters [] = []
  characters (c ∷ s) = str (c ∷ []) ∷ characters s

  abbrev keys : Fields Float → List (Value Float)
  keys blank = []
  keys (field k v fs) = str k ∷ keys fs

  -- `list(v)`
  abbrev pub iterate : Value Float → Result (List (Value Float))
  iterate (list vs) = ok (to_list vs)
  iterate (str s) = ok (characters s)
  iterate (dict fs) = ok (keys fs)
  iterate _ = err type_error

  module _ (R : Runtime Float) where
    -- `repr(v)`
    unfoldable mutual
      pub repr : Value Float → Str
      repr null = codes "None"
      repr (bool true) = codes "True"
      repr (bool false) = codes "False"
      repr (int n) = show_int n
      repr (float x) = R.show_float x
      repr (str s) = R.repr_text s
      repr (list end) = codes "[]"
      repr (list (item v vs)) = codes "[" ++ repr v ++ repr_items vs ++ codes "]"
      repr (dict blank) = codes "{}"
      repr (dict (field k v fs)) =
          codes "{" ++ R.repr_text k ++ codes ": " ++ repr v ++ repr_fields fs ++ codes "}"

      pub repr_items : Values Float → Str
      repr_items end = []
      repr_items (item v vs) = codes ", " ++ repr v ++ repr_items vs

      pub repr_fields : Fields Float → Str
      repr_fields blank = []
      repr_fields (field k v fs) =
          codes ", " ++ R.repr_text k ++ codes ": " ++ repr v ++ repr_fields fs

    -- `str(v)`
    abbrev pub to_str : Value Float → Str
    to_str (str s) = s
    to_str v = repr v

    -- `int(v)`; a float that is not finite is refused, as an overflow or as a bad value.
    abbrev pub to_int : Value Float → Result ℤ
    to_int (bool true) = ok (pos 1)
    to_int (bool false) = ok (pos 0)
    to_int (int n) = ok n
    to_int (float x) = raise_none overflow_error (R.int_of_float x)
    to_int (str s) = raise_none value_error (int_of_text (strip s))
    to_int _ = err type_error

    -- `float(v)`
    abbrev pub to_float : Value Float → Result Float
    to_float (bool true) = raise_none overflow_error (R.float_of_int (pos 1))
    to_float (bool false) = raise_none overflow_error (R.float_of_int (pos 0))
    to_float (int n) = raise_none overflow_error (R.float_of_int n)
    to_float (float x) = ok x
    to_float (str s) = raise_none value_error (R.float_of_text s)
    to_float _ = err type_error
