-- ===== src/Metrics/Serving.antt =====
-- llm_serve/metrics/registry.py: the registry, its text format, and the metrics of the server. The
-- objects that `ServingMetrics` holds are those of its registry, by name.
use llm_serve.Prelude.{
  ℕ, zero, suc, not, Option, none, some, is_some, List, [], ◌∷◌, ◌++◌, map, Str, codes, Dict,
  lookup, insert, if◌then◌else◌, value_error, key_error, Result, ok, err,
}
use llm_serve.Prelude.Results.{◌>>=◌, ensure}
use llm_serve.Api.Sse.{join_lines}
use llm_serve.Api.ChatTemplate.{empty}
use llm_serve.Metrics.Registry.{
  Amounts, LabelKey, format_label_key, Bound, finite, Metric, Kind, counter, gauge, histogram,
  find_key, or_else, format_value, inc_counter, set_gauge, observe, observe_all, ascends, with_inf,
  zip,
}
use llm_serve.Types.{GenerationResult}
pub mod Names
pub mod Calls
pub mod Records

abbrev pub Sample : Type 0 → Type 0
Sample Num = Str × LabelKey × Bound Num

abbrev pub Registry : Type 0 → Type 0
Registry Num = Dict (Metric Num)

unfoldable pub qualify : Str → Str → Str
qualify [] name = name
qualify (c ∷ namespace) name = (c ∷ namespace) ++ (codes "_" ++ name)

module _ {Num : Type 0} where
  abbrev pub new_metric : Kind → Str → Str → List Str → List Num → Metric Num
  new_metric kind name documentation labelnames bounds = record {
    kind = kind;
    name = name;
    documentation = documentation;
    labelnames = labelnames;
    values = [];
    bounds = bounds;
    counts = [];
    sums = [];
  }

  -- `_add`
  unfoldable pub register : Metric Num → Registry Num → Result (Registry Num)
  register m r = if is_some (lookup m.name r) then err value_error else ok (insert m.name m r)

  -- `get`
  unfoldable pub get_metric : Str → Str → Registry Num → Option (Metric Num)
  get_metric namespace name r = lookup (qualify namespace name) r

abbrev pub found_metric : {Num : Type 0} → Option (Metric Num) → Result (Metric Num)
found_metric none = err key_error
found_metric (some m) = ok m

module _ {Num : Type 0} (A : Amounts Num) (namespace : Str) where
  abbrev pub add_counter : Str → Str → List Str → Registry Num → Result (Registry Num)
  add_counter name documentation labelnames r =
      register (new_metric counter (qualify namespace name) documentation labelnames []) r

  abbrev pub add_gauge : Str → Str → List Str → Registry Num → Result (Registry Num)
  add_gauge name documentation labelnames r =
      register (new_metric gauge (qualify namespace name) documentation labelnames []) r

  -- The constructor of a histogram refuses bounds that are empty or not in order.
  abbrev pub add_histogram : Str → Str → List Num → List Str → Registry Num → Result (Registry Num)
  add_histogram name documentation bounds labelnames r =
      ensure (not (empty bounds)) value_error >>= λ _.
      ensure (ascends A bounds) value_error >>= λ _.
      register (new_metric histogram (qualify namespace name) documentation labelnames bounds) r

module _ {Num : Type 0} (A : Amounts Num) where
  abbrev pub value_samples : Str → List (LabelKey × Num) → List (Sample Num)
  value_samples name [] = []
  value_samples name ((key, v) ∷ values) = (name, key, finite v) ∷ value_samples name values

  abbrev pub bucket_samples : Str → LabelKey → List (Bound Num × ℕ) → List (Sample Num)
  bucket_samples name key [] = []
  bucket_samples name key ((bound, n) ∷ pairs) =
      (
        name ++ codes "_bucket",
        key ++ (codes "le", format_value A bound) ∷ [],
        finite (A.of_count n),
      )
      ∷ bucket_samples name key pairs

  abbrev pub last_count : List ℕ → ℕ
  last_count [] = 0
  last_count (n ∷ []) = n
  last_count (n ∷ m ∷ ns) = last_count (m ∷ ns)

  unfoldable pub histogram_samples : Metric Num → List (LabelKey × List ℕ) → List (Sample Num)
  unfolding format_value find_key
  histogram_samples m [] = []
  histogram_samples m ((key, counts) ∷ rest) =
      bucket_samples m.name key (zip (with_inf m.bounds) counts)
      ++ ((m.name ++ codes "_sum", key, finite (or_else A.nothing (find_key key m.sums)))
          ∷ (m.name ++ codes "_count", key, finite (A.of_count (last_count counts)))
          ∷ histogram_samples m rest)

  abbrev pub samples_as : Kind → Metric Num → List (Sample Num)
  samples_as counter m = value_samples (m.name ++ codes "_total") m.values
  samples_as gauge m = value_samples m.name m.values
  samples_as histogram m = histogram_samples m m.counts

  abbrev kind_text : Kind → Str
  kind_text counter = codes "counter"
  kind_text gauge = codes "gauge"
  kind_text histogram = codes "histogram"

  abbrev sample_line : Sample Num → Str
  sample_line (name, key, v) = name ++ (format_label_key key ++ (codes " " ++ format_value A v))

  -- The lines of one metric; none where it has no samples.
  unfoldable pub metric_lines : Metric Num → List Str
  unfolding histogram_samples format_label_key
  metric_lines m =
      let samples = samples_as m.kind m in
      if empty samples
      then []
      else (codes "# HELP " ++ (m.name ++ (codes " " ++ m.documentation)))
        ∷ (codes "# TYPE " ++ (m.name ++ (codes " " ++ kind_text m.kind)))
        ∷ map sample_line samples

  unfoldable pub registry_lines : Registry Num → List Str
  unfolding metric_lines
  registry_lines [] = []
  registry_lines ((name, m) ∷ r) = metric_lines m ++ registry_lines r

  unfoldable pub render : Registry Num → Str
  unfolding registry_lines
  render r = join_lines (registry_lines r) ++ (if empty (registry_lines r) then [] else 10 ∷ [])

  -- A method call on the metric that is registered under a name.
  abbrev pub on_metric :
      Str → (Metric Num → Result (Metric Num)) → Registry Num → Result (Registry Num)
  on_metric name change r =
      found_metric (lookup name r) >>= λ m. change m >>= λ n. ok (insert name n r)

  abbrev pub labels : List Str
  labels = codes "backend" ∷ codes "model" ∷ []

  module _ (namespace : Str) where
    -- `ServingMetrics.__init__`, with the three lists of bounds
    unfoldable pub serving_metrics : List Num → List Num → List Num → Result (Registry Num)
    unfolding qualify register
    serving_metrics ttft itl e2e =
        add_counter A namespace (codes "requests_total") (codes "Completion requests received.")
          (labels ++ codes "status" ∷ []) []
        >>= add_counter A namespace (codes "prompt_tokens_total") (codes "Prompt tokens processed.")
            labels
        >>= add_counter A namespace (codes "generation_tokens_total") (codes "Tokens generated.")
            labels
        >>= add_counter A namespace (codes "cached_prompt_tokens_total")
            (codes "Prompt tokens served from the KV prefix cache.") labels
        >>= add_histogram A namespace (codes "time_to_first_token_seconds")
            (codes "Time from request arrival to the first streamed token.") ttft labels
        >>= add_histogram A namespace (codes "inter_token_latency_seconds")
            (codes "Latency between consecutive streamed tokens.") itl labels
        >>= add_histogram A namespace (codes "e2e_request_latency_seconds")
            (codes "End-to-end request latency.") e2e labels
        >>= add_gauge A namespace (codes "num_requests_running") (codes "Requests decoding now.")
            labels
        >>= add_gauge A namespace (codes "num_requests_waiting") (codes "Requests queued.") labels
        >>= add_gauge A namespace (codes "gpu_kv_cache_usage_perc")
            (codes "Fraction of the KV block pool in use.") labels
        >>= add_gauge A namespace (codes "prefix_cache_hit_rate")
            (codes "Fraction of prompt blocks served from cache.") labels
        >>= add_counter A namespace (codes "preemptions_total")
            (codes "Sequences preempted for lack of KV blocks.") labels

    abbrev pub counted : Str → Num → Dict Str → Registry Num → Result (Registry Num)
    counted name amount ls r = on_metric (qualify namespace name) (inc_counter A amount ls) r

    abbrev pub seen : Str → Option Num → Dict Str → Registry Num → Result (Registry Num)
    seen name none ls r = ok r
    seen name (some x) ls r = on_metric (qualify namespace name) (observe A x ls) r

    -- The cached tokens are counted unless there are none.
    abbrev pub counted_some : Str → ℕ → Dict Str → Registry Num → Result (Registry Num)
    counted_some name zero ls r = ok r
    counted_some name (suc n) ls r = counted name (A.of_count (suc n)) ls r

    abbrev pub metric_labels : Str → Str → Dict Str
    metric_labels backend model = (codes "backend", backend) ∷ (codes "model", model) ∷ []

    unfoldable pub observe_result :
        GenerationResult Num → Str → Str → Str → Registry Num → Result (Registry Num)
    unfolding qualify inc_counter observe observe_all
    observe_result result backend model status r =
        let ls = metric_labels backend model in
        counted (codes "requests_total") A.one (ls ++ (codes "status", status) ∷ []) r
        >>= counted (codes "prompt_tokens_total") (A.of_count result.prompt_tokens) ls
        >>= counted (codes "generation_tokens_total") (A.of_count result.completion_tokens) ls
        >>= counted_some (codes "cached_prompt_tokens_total") result.cached_prompt_tokens ls
        >>= seen (codes "time_to_first_token_seconds") result.ttft_s ls
        >>= seen (codes "e2e_request_latency_seconds") (some result.e2e_latency_s) ls
        >>= on_metric (qualify namespace (codes "inter_token_latency_seconds"))
            (observe_all A result.inter_token_latencies_s ls)

    abbrev pub put_gauge : Str → Num → Dict Str → Registry Num → Result (Registry Num)
    put_gauge name value ls r = on_metric (qualify namespace name) (set_gauge A value ls) r

    -- `observe_stats`, of a snapshot with these four values
    unfoldable pub observe_stats :
        Str → Str → Num → Num → Num → Num → Registry Num → Result (Registry Num)
    unfolding qualify set_gauge
    observe_stats backend model running waiting kv_cache_usage prefix_cache_hit_rate r =
        let ls = metric_labels backend model in
        put_gauge (codes "num_requests_running") running ls r
        >>= put_gauge (codes "num_requests_waiting") waiting ls
        >>= put_gauge (codes "gpu_kv_cache_usage_perc") kv_cache_usage ls
        >>= put_gauge (codes "prefix_cache_hit_rate") prefix_cache_hit_rate ls
