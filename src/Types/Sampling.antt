-- ===== src/Types/Sampling.antt =====
-- llm_serve/types.py: decoding parameters, their checks, and how they are read from a request body.
use llm_serve.Prelude.{
  Bool, true, false, not, ◌&&◌, ◌||◌, leb, Option, none, some, List, [], ◌∷◌, Str, codes, is_in,
  Dict, lookup, length, ℤ, pos, negsuc, int_lt, int_eq, if◌then◌else◌, validation_error,
  overflow_error, Result, ok, err,
}
use llm_serve.Prelude.Results.{◌>>=◌, ensure}
use llm_serve.Values.{Value, null, bool, int, float, str, Runtime, is_null, is_str}
use llm_serve.Values.Order.{Number, whole, real, number_le, number_eq, number_of}
use llm_serve.Values.Casts.{iterate, raise_none}

pub record SamplingParams (Float : Type 0) : Type 0 where
  pub max_tokens : Value Float
  pub temperature : Value Float
  pub top_p : Value Float
  pub top_k : Value Float
  pub presence_penalty : Value Float
  pub frequency_penalty : Value Float
  pub repetition_penalty : Value Float
  pub stop : List (Value Float)
  pub seed : Value Float
  pub n : Value Float
  pub ignore_eos : Value Float

abbrev pub sampling_keys : List Str
sampling_keys =
    codes "max_tokens"
    ∷ codes "temperature"
    ∷ codes "top_p"
    ∷ codes "top_k"
    ∷ codes "presence_penalty"
    ∷ codes "frequency_penalty"
    ∷ codes "repetition_penalty"
    ∷ codes "seed"
    ∷ codes "n"
    ∷ codes "ignore_eos"
    ∷ []

module _ {Float : Type 0} where
  -- An int that is no bool
  abbrev pub require_int : Value Float → Result ℤ
  require_int (int n) = ok n
  require_int _ = err validation_error

  abbrev pub all_text : List (Value Float) → Bool
  all_text [] = true
  all_text (v ∷ vs) = is_str v && all_text vs

  -- `{k: v for k, v in payload.items() if k in known and v is not None}`
  unfoldable pub kwargs_of : Dict (Value Float) → Dict (Value Float)
  kwargs_of [] = []
  kwargs_of ((k, v) ∷ payload) =
      let rest = kwargs_of payload in
      if is_in sampling_keys k && not (is_null v) then (k, v) ∷ rest else rest

  -- A keyword argument, or the field's default
  abbrev or_default : Option (Value Float) → Value Float → Value Float
  or_default none default = default
  or_default (some v) default = v

  unfoldable pub argument : Dict (Value Float) → Str → Value Float → Value Float
  argument kwargs key default = or_default (lookup key kwargs) default

  abbrev pub stops : Option (Value Float) → Result (List (Value Float))
  stops none = ok []
  stops (some null) = ok []
  stops (some (str s)) = ok (str s ∷ [])
  stops (some v) = iterate v

module _ {Float : Type 0} (R : Runtime Float) where
  -- `_require_number`
  unfoldable pub require_number : Value Float → Result Float
  require_number (int n) = raise_none overflow_error (R.float_of_int n)
  require_number (float x) = ok x
  require_number _ = err validation_error

  abbrev float_le : Float → Float → Bool
  float_le x y = number_le R (real x) (real y)

  -- `_check_range`
  unfoldable pub check_range : Float → Float → Float → Result (Unit {0})
  check_range value low high = ensure (float_le low value && float_le value high) validation_error

  abbrev pub in_range : Float → Float → Value Float → Result (Unit {0})
  in_range low high v = require_number v >>= λ x. check_range x low high

  abbrev pub zero_number : Option (Number Float) → Bool
  zero_number none = false
  zero_number (some x) = number_eq R x (real (R.literal 0 1))

  unfoldable pub check_params : SamplingParams Float → Result (SamplingParams Float)
  unfolding require_number check_range
  check_params p = do
    max_tokens ← require_int p.max_tokens
    _ ← ensure (not (int_lt max_tokens (pos 1))) validation_error
    _ ← ensure (not (int_lt (pos 32768) max_tokens)) validation_error
    _ ← in_range (R.literal 0 1) (R.literal 20 1) p.temperature
    _ ← in_range (R.literal 0 1) (R.literal 10 1) p.top_p
    _ ← ensure (not (zero_number (number_of p.top_p))) validation_error
    top_k ← require_int p.top_k
    _ ← ensure (not (int_eq top_k (pos 0) || int_lt top_k (negsuc 0))) validation_error
    _ ← in_range (R.negative (R.literal 20 1)) (R.literal 20 1) p.presence_penalty
    _ ← in_range (R.negative (R.literal 20 1)) (R.literal 20 1) p.frequency_penalty
    penalty ← require_number p.repetition_penalty
    _ ← ensure (not (number_le R (real penalty) (whole (pos 0)))) validation_error
    n ← require_int p.n
    _ ← ensure (not (int_lt n (pos 1))) validation_error
    _ ← ensure (leb (length p.stop) 8) validation_error
    _ ← ensure (all_text p.stop) validation_error
    ok p

  abbrev pub params_of : Dict (Value Float) → List (Value Float) → SamplingParams Float
  params_of kwargs stop = record {
    max_tokens = argument kwargs (codes "max_tokens") (int (pos 128));
    temperature = argument kwargs (codes "temperature") (float (R.literal 7 1));
    top_p = argument kwargs (codes "top_p") (float (R.literal 10 1));
    top_k = argument kwargs (codes "top_k") (int (negsuc 0));
    presence_penalty = argument kwargs (codes "presence_penalty") (float (R.literal 0 1));
    frequency_penalty = argument kwargs (codes "frequency_penalty") (float (R.literal 0 1));
    repetition_penalty = argument kwargs (codes "repetition_penalty") (float (R.literal 10 1));
    stop = stop;
    seed = argument kwargs (codes "seed") null;
    n = argument kwargs (codes "n") (int (pos 1));
    ignore_eos = argument kwargs (codes "ignore_eos") (bool false);
  }

  unfoldable pub from_dict : Dict (Value Float) → Result (SamplingParams Float)
  unfolding check_params kwargs_of argument
  from_dict payload = stops (lookup (codes "stop") payload) >>= λ stop.
      check_params (params_of (kwargs_of payload) stop)
