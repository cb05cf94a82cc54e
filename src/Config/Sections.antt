-- ===== src/Config/Sections.antt =====
-- llm_serve/config.py: the six sections and their defaults.
use Prim.Native.String.{String}
use llm_serve.Prelude.{ℕ, true, false, List, [], ◌∷◌, Str, codes, pos}
use llm_serve.Values.{Value, null, bool, int, float, str, list, Runtime, of_list}
use llm_serve.Config.{Section, Config}

abbrev pub known_backends : List Str
known_backends = codes "mock" ∷ codes "vllm" ∷ codes "triton" ∷ codes "ray" ∷ codes "trtllm" ∷ []

module _ {Float : Type 0} (R : Runtime Float) where
  abbrev text : String → Value Float
  text s = str (codes s)

  abbrev number : ℕ → Value Float
  number n = int (pos n)

  abbrev decimal : ℕ → ℕ → Value Float
  decimal m k = float (R.literal m k)

  unfoldable pub model_config : Section Float
  model_config =
      (codes "name", text "mistral-7b-qlora")
      ∷ (codes "base_model", text "mistralai/Mistral-7B-Instruct-v0.2")
      ∷ (codes "lora_adapter", null)
      ∷ (codes "tokenizer", null)
      ∷ (codes "max_model_len", number 8192)
      ∷ (codes "dtype", text "bfloat16")
      ∷ (codes "quantization", null)
      ∷ (codes "trust_remote_code", bool false)
      ∷ []

  unfoldable pub backend_config : Section Float
  backend_config =
      (codes "kind", text "mock")
      ∷ (codes "tensor_parallel_size", number 1)
      ∷ (codes "gpu_memory_utilization", decimal 90 2)
      ∷ (codes "enable_prefix_caching", bool true)
      ∷ (codes "enforce_eager", bool false)
      ∷ (codes "swap_space_gb", number 4)
      ∷ (codes "endpoint", null)
      ∷ (codes "engine_dir", null)
      ∷ (codes "mock_prefill_s", decimal 5 2)
      ∷ (codes "mock_decode_s", decimal 1 2)
      ∷ []

  unfoldable pub scheduler_config : Section Float
  scheduler_config =
      (codes "max_num_seqs", number 256)
      ∷ (codes "max_num_batched_tokens", number 8192)
      ∷ (codes "block_size", number 16)
      ∷ (codes "num_gpu_blocks", number 4096)
      ∷ (codes "watermark", decimal 1 2)
      ∷ (codes "enable_chunked_prefill", bool true)
      ∷ (codes "max_waiting", number 2048)
      ∷ (codes "preemption_mode", text "recompute")
      ∷ []

  unfoldable pub server_config : Section Float
  server_config =
      (codes "host", text "0.0.0.0")
      ∷ (codes "port", number 8000)
      ∷ (codes "api_key", null)
      ∷ (codes "max_concurrent_requests", number 512)
      ∷ (codes "request_timeout_s", decimal 3000 1)
      ∷ (codes "served_model_name", text "mistral-7b-qlora")
      ∷ []

  abbrev literals : List (ℕ × ℕ) → List (Value Float)
  literals [] = []
  literals ((m, k) ∷ rest) = decimal m k ∷ literals rest

  abbrev decimals : List (ℕ × ℕ) → Value Float
  decimals ds = list (of_list (literals ds))

  unfoldable pub metrics_config : Section Float
  metrics_config =
      (codes "enabled", bool true)
      ∷ (codes "namespace", text "llm_serve")
      ∷ (
        codes "ttft_buckets_s",
        decimals (
            (1, 2)
            ∷ (25, 3)
            ∷ (5, 2)
            ∷ (1, 1)
            ∷ (25, 2)
            ∷ (5, 1)
            ∷ (10, 1)
            ∷ (25, 1)
            ∷ (50, 1)
            ∷ (100, 1)
            ∷ []),
      )
      ∷ (
        codes "itl_buckets_s",
        decimals ((5, 3) ∷ (1, 2) ∷ (2, 2) ∷ (4, 2) ∷ (8, 2) ∷ (16, 2) ∷ (32, 2) ∷ (64, 2) ∷ []),
      )
      ∷ (
        codes "e2e_buckets_s",
        decimals (
            (1, 1)
            ∷ (25, 2)
            ∷ (5, 1)
            ∷ (10, 1)
            ∷ (25, 1)
            ∷ (50, 1)
            ∷ (100, 1)
            ∷ (300, 1)
            ∷ (600, 1)
            ∷ []),
      )
      ∷ []

  unfoldable pub bench_config : Section Float
  bench_config =
      (codes "concurrency", number 16)
      ∷ (codes "num_requests", number 200)
      ∷ (codes "duration_s", null)
      ∷ (codes "request_rate", null)
      ∷ (codes "warmup_requests", number 8)
      ∷ (codes "input_len", number 512)
      ∷ (codes "input_len_std", number 64)
      ∷ (codes "output_len", number 128)
      ∷ (codes "output_len_std", number 16)
      ∷ (codes "shared_prefix_len", number 0)
      ∷ (codes "seed", number 42)
      ∷ (codes "slo_ttft_s", decimal 10 1)
      ∷ (codes "slo_itl_s", decimal 5 2)
      ∷ (codes "gpu_sample_interval_s", decimal 5 1)
      ∷ []

  unfoldable pub default_config : Config Float
  unfolding model_config backend_config scheduler_config server_config metrics_config bench_config
  default_config =
      (codes "model", model_config)
      ∷ (codes "backend", backend_config)
      ∷ (codes "scheduler", scheduler_config)
      ∷ (codes "server", server_config)
      ∷ (codes "metrics", metrics_config)
      ∷ (codes "bench", bench_config)
      ∷ []
