-- ===== src/Config/Coerce.antt =====
-- llm_serve/config.py: `_coerce` and `_apply_section`.
use llm_serve.Prelude.{
  ℕ, Bool, ◌==◌, Option, none, some, List, [], ◌∷◌, Str, codes, is_in, Dict, lookup, insert,
  config_error, Result, ok, err, if◌then◌else◌,
}
use llm_serve.Prelude.Results.{◌>>=◌}
use llm_serve.Api.ChatTemplate.{strip, empty}
use llm_serve.Values.{Value, null, bool, int, float, str, list, dict, Runtime, of_list}
use llm_serve.Values.Casts.{lower, to_str, to_int, to_float, iterate, repr}
use llm_serve.Config.{Section}

abbrev pub pushed : Bool → ℕ → List Str → List Str
pushed cut d [] = []
pushed cut d (piece ∷ pieces) = if cut then [] ∷ piece ∷ pieces else (d ∷ piece) ∷ pieces

-- `text.split(c)`; the first item is what stands before the first `c`.
unfoldable pub split_on : ℕ → Str → List Str
split_on c [] = [] ∷ []
split_on c (d ∷ s) = pushed (d == c) d (split_on c s)

module _ {Float : Type 0} (R : Runtime Float) where
  -- `[float(v) for v in pieces if v.strip()]`
  unfoldable pub floats_of : List Str → Result (List (Value Float))
  floats_of [] = ok []
  floats_of (piece ∷ pieces) =
      let rest = floats_of pieces in
      if empty (strip piece)
      then rest
      else to_float R (str piece) >>= λ x. rest >>= λ xs. ok (float x ∷ xs)

  abbrev coerce_bool : Value Float → Value Float
  coerce_bool (bool b) = bool b
  coerce_bool v = bool (
      is_in (codes "1" ∷ codes "true" ∷ codes "yes" ∷ codes "on" ∷ []) (lower (strip (to_str R v))))

  -- A bool for a number is kept as it is.
  abbrev coerce_int : Value Float → Result (Value Float)
  coerce_int (bool b) = ok (bool b)
  coerce_int v = to_int R v >>= λ n. ok (int n)

  abbrev coerce_list : Value Float → Result (Value Float)
  coerce_list (str s) = floats_of (split_on b',' s) >>= λ xs. ok (list (of_list xs))
  coerce_list v = iterate v >>= λ vs. ok (list (of_list vs))

  unfoldable pub coerce : Value Float → Value Float → Result (Value Float)
  unfolding lower repr split_on floats_of
  coerce null target = ok null
  coerce value null = ok value
  coerce value (bool b) = ok (coerce_bool value)
  coerce value (int n) = coerce_int value
  coerce value (float x) = to_float R value >>= λ y. ok (float y)
  coerce value (list vs) = coerce_list value
  coerce value (str s) = ok (str (to_str R value))
  coerce value (dict fs) = ok value

  abbrev pub set_option :
      Str → Value Float → Section Float → Option (Value Float) → Result (Section Float)
  set_option key value section none = err config_error
  set_option key value section (some old) = coerce value old >>= λ new. ok (insert key new section)

  unfoldable pub apply_section : Dict (Value Float) → Section Float → Result (Section Float)
  unfolding coerce
  apply_section [] section = ok section
  apply_section ((key, value) ∷ overrides) section =
      set_option key value section (lookup key section) >>= λ changed.
      apply_section overrides changed
