-- ===== src/Config/Validate.antt =====
-- llm_serve/config.py: the `validate` of each section and of the whole.
use llm_serve.Prelude.{
  ℕ, Bool, false, not, ◌&&◌, ◌||◌, Option, some, List, [], ◌∷◌, Str, codes, pos, config_error,
  type_error, int_mul, Result, ok, err,
}
use llm_serve.Prelude.Results.{◌>>=◌, ensure}
use llm_serve.Values.{Value, null, int, float, Runtime, is_null, is_text, is_one_of, truthy}
use llm_serve.Values.Order.{Number, whole, number_of, value_lt, value_le, value_eq, ascending}
use llm_serve.Values.Casts.{iterate}
use llm_serve.Config.{Section, Config, attr}
use llm_serve.Config.Sections.{known_backends}

abbrev number : {Float : Type 0} → ℕ → Value Float
number n = int (pos n)

-- `None` or one of the texts
abbrev none_or : {Float : Type 0} → List Str → Value Float → Bool
none_or ts v = is_null v || is_one_of ts v

module _ {Float : Type 0} where
  -- `if v is not None: ...`
  abbrev pub when_set : Value Float → Result (Unit {0}) → Result (Unit {0})
  when_set null check = ok tt
  when_set v check = check

  -- `if v is None: ...`
  abbrev pub when_unset : Value Float → Result (Unit {0}) → Result (Unit {0})
  when_unset null check = check
  when_unset v check = ok tt

module _ {Float : Type 0} (R : Runtime Float) where
  abbrev decimal : ℕ → ℕ → Value Float
  decimal m k = float (R.literal m k)

  -- `if v < w: raise ConfigError`
  abbrev pub at_least : Value Float → Value Float → Result (Unit {0})
  at_least w v = value_lt R v w >>= λ small. ensure (not small) config_error

  -- `if not v < w: raise ConfigError`
  abbrev pub below : Value Float → Value Float → Result (Unit {0})
  below w v = value_lt R v w >>= λ small. ensure small config_error

  -- `if v <= 0: raise ConfigError`
  abbrev pub positive : Value Float → Result (Unit {0})
  positive v = value_le R v (number 0) >>= λ small. ensure (not small) config_error

  -- `if not low < v <= high`, `if not low <= v < high` and `if not low <= v <= high`: the second
  -- test is made where the first holds.
  abbrev above_to : Value Float → Value Float → Value Float → Result (Unit {0})
  above_to low high v = below v low >>= λ _. value_le R v high >>= λ fits. ensure fits config_error

  abbrev from_below : Value Float → Value Float → Value Float → Result (Unit {0})
  from_below low high v =
      value_le R low v >>= λ fits. ensure fits config_error >>= λ _. below high v

  abbrev from_to : Value Float → Value Float → Value Float → Result (Unit {0})
  from_to low high v = value_le R low v >>= λ fits.
      ensure fits config_error >>= λ _. value_le R v high >>= λ less. ensure less config_error

  unfoldable pub validate_model : Section Float → Result (Unit {0})
  validate_model s = do
    max_model_len ← attr (codes "max_model_len") s
    _ ← at_least (number 128) max_model_len
    dtype ← attr (codes "dtype") s
    _ ←
        ensure
          (is_one_of (codes "auto" ∷ codes "float16" ∷ codes "bfloat16" ∷ codes "float32" ∷ [])
            dtype)
          config_error
    quantization ← attr (codes "quantization") s
    ensure
        (none_or (codes "awq" ∷ codes "gptq" ∷ codes "fp8" ∷ codes "bitsandbytes" ∷ [])
          quantization)
        config_error

  unfoldable pub validate_backend : Section Float → Result (Unit {0})
  validate_backend s = do
    kind ← attr (codes "kind") s
    _ ← ensure (is_one_of known_backends kind) config_error
    tensor_parallel_size ← attr (codes "tensor_parallel_size") s
    _ ← at_least (number 1) tensor_parallel_size
    gpu_memory_utilization ← attr (codes "gpu_memory_utilization") s
    _ ← above_to (decimal 0 1) (decimal 10 1) gpu_memory_utilization
    endpoint ← attr (codes "endpoint") s
    _ ←
        ensure (not (is_one_of (codes "triton" ∷ codes "ray" ∷ []) kind && not (truthy R endpoint)))
          config_error
    engine_dir ← attr (codes "engine_dir") s
    ensure (not (is_text (codes "trtllm") kind && not (truthy R engine_dir))) config_error

  abbrev pub is_one_of_numbers : List ℕ → Value Float → Bool
  is_one_of_numbers [] v = false
  is_one_of_numbers (n ∷ ns) v = value_eq R v (number n) || is_one_of_numbers ns v

  unfoldable pub validate_scheduler : Section Float → Result (Unit {0})
  unfolding value_eq
  validate_scheduler s = do
    block_size ← attr (codes "block_size") s
    _ ← ensure (is_one_of_numbers (8 ∷ 16 ∷ 32 ∷ 64 ∷ 128 ∷ []) block_size) config_error
    max_num_seqs ← attr (codes "max_num_seqs") s
    _ ← at_least (number 1) max_num_seqs
    max_num_batched_tokens ← attr (codes "max_num_batched_tokens") s
    _ ← at_least block_size max_num_batched_tokens
    watermark ← attr (codes "watermark") s
    _ ← from_below (decimal 0 1) (decimal 10 1) watermark
    preemption_mode ← attr (codes "preemption_mode") s
    ensure (is_one_of (codes "recompute" ∷ codes "swap" ∷ []) preemption_mode) config_error

  unfoldable pub validate_server : Section Float → Result (Unit {0})
  validate_server s = do
    port ← attr (codes "port") s
    _ ← from_to (number 1) (number 65535) port
    request_timeout_s ← attr (codes "request_timeout_s") s
    positive request_timeout_s

  -- Empty, or not in order
  abbrev validate_buckets : Value Float → Result (Unit {0})
  validate_buckets v = ensure (truthy R v) config_error >>= λ _.
      iterate v >>= λ vs. ascending R vs >>= λ sorted. ensure sorted config_error

  unfoldable pub validate_metrics : Section Float → Result (Unit {0})
  unfolding ascending
  validate_metrics s = do
    ttft ← attr (codes "ttft_buckets_s") s
    _ ← validate_buckets ttft
    itl ← attr (codes "itl_buckets_s") s
    _ ← validate_buckets itl
    e2e ← attr (codes "e2e_buckets_s") s
    validate_buckets e2e

  unfoldable pub validate_bench : Section Float → Result (Unit {0})
  validate_bench s = do
    concurrency ← attr (codes "concurrency") s
    _ ← at_least (number 1) concurrency
    duration_s ← attr (codes "duration_s") s
    num_requests ← attr (codes "num_requests") s
    _ ← when_unset duration_s (at_least (number 1) num_requests)
    request_rate ← attr (codes "request_rate") s
    _ ← when_set request_rate (positive request_rate)
    input_len ← attr (codes "input_len") s
    _ ← at_least (number 1) input_len
    output_len ← attr (codes "output_len") s
    _ ← at_least (number 1) output_len
    shared_prefix_len ← attr (codes "shared_prefix_len") s
    below input_len shared_prefix_len

  -- `self.max_model_len * self.max_num_seqs`, of numbers that are not floats
  abbrev product : Option (Number Float) → Option (Number Float) → Result (Value Float)
  product (some (whole m)) (some (whole n)) = ok (int (int_mul m n))
  product _ _ = err type_error

  abbrev pub at_most : Value Float → Value Float → Result (Unit {0})
  at_most high v = value_lt R high v >>= λ more. ensure (not more) config_error

  unfoldable pub validate_limits : Section Float → Section Float → Result (Unit {0})
  validate_limits model scheduler = do
    max_num_batched_tokens ← attr (codes "max_num_batched_tokens") scheduler
    max_model_len ← attr (codes "max_model_len") model
    max_num_seqs ← attr (codes "max_num_seqs") scheduler
    held ← product (number_of max_model_len) (number_of max_num_seqs)
    at_most held max_num_batched_tokens

  unfoldable pub validate : Config Float → Result (Config Float)
  unfolding validate_model validate_backend validate_scheduler validate_server validate_metrics
      validate_bench validate_limits
  validate config = do
    model ← attr (codes "model") config
    _ ← validate_model model
    backend ← attr (codes "backend") config
    _ ← validate_backend backend
    scheduler ← attr (codes "scheduler") config
    _ ← validate_scheduler scheduler
    server ← attr (codes "server") config
    _ ← validate_server server
    metrics ← attr (codes "metrics") config
    _ ← validate_metrics metrics
    bench ← attr (codes "bench") config
    _ ← validate_bench bench
    _ ← validate_limits model scheduler
    ok config
