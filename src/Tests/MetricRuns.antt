-- ===== src/Tests/MetricRuns.antt =====
-- Concrete runs of the metrics, and the theorems on them.
use llm_serve.Prelude.{
  ℕ, ◌+◌, ◌≡◌, refl, true, false, none, some, List, [], ◌∷◌, ◌++◌, codes, Str, leb, str_eq, lookup,
  show, pos, Dict, ok, arith,
}
use llm_serve.Metrics.Registry.{
  Amounts, LabelKey, Metric, finite, infinite, find_key, key_eq, key_of, ascends, zip, with_inf,
  observe_all, buckets, format_label_key, counter, histogram,
}
use llm_serve.Metrics.Registry.Buckets.{buckets-observe_all}
use llm_serve.Metrics.Math.{cumulative_bucket_counts}
use llm_serve.Metrics.Math.Counts.{Rising, le_counts, cumulative_bucket_counts-Rising}
use llm_serve.Metrics.Registry.Reader.{read_labels, read_labels-format_label_key}
use llm_serve.Prelude.Results.{◌>>=◌}
use llm_serve.Api.Sse.{join_lines}
use llm_serve.Types.{FinishReason, GenerationResult}
use llm_serve.Metrics.Serving.{Registry, get_metric, render, serving_metrics}
use llm_serve.Metrics.Serving.Names.{names_of, server_names}
use llm_serve.Metrics.Serving.Records.{
  Event, of_result, of_stats, record_events, serving_metrics-record_events,
}

-- Values in whole milliseconds
abbrev millis : Amounts ℕ
millis = record {
  nothing = 0;
  one = 1;
  plus = λ x y. x + y;
  opposite = λ x. x;
  negative = λ x. false;
  at_most = leb;
  of_count = λ n. n;
  whole = λ x. some (pos x);
  repr = show;
}

abbrev latency : Metric ℕ
latency = record {
  kind = histogram;
  name = codes "latency";
  documentation = codes "Latency";
  labelnames = codes "model" ∷ [];
  values = [];
  bounds = 5 ∷ 10 ∷ [];
  counts = [];
  sums = [];
}

abbrev model_label : Dict Str
model_label = (codes "model", codes "m") ∷ []

abbrev waits : List ℕ
waits = 7 ∷ 3 ∷ 12 ∷ []

known_label : key_of millis latency model_label ≡ ok model_label
unfolding key_of str_eq lookup
known_label = refl

sorted_bounds : ascends millis (5 ∷ 10 ∷ []) ≡ true
unfolding ascends
sorted_bounds = refl

no_sample : find_key model_label latency.counts ≡ none
unfolding find_key
no_sample = refl

buckets-observe_all_example :
    (n : Metric ℕ) × (observe_all millis waits model_label latency ≡ ok n)
    × (buckets millis model_label n ≡ cumulative_bucket_counts millis waits (5 ∷ 10 ∷ []))
    × (buckets millis model_label n
        ≡ ok (zip (with_inf (5 ∷ 10 ∷ [])) (le_counts millis waits (5 ∷ 10 ∷ []))))
    × ((j : LabelKey) → key_eq model_label j ≡ false → find_key j n.counts ≡ find_key j [])
buckets-observe_all_example =
    buckets-observe_all millis waits model_label latency model_label known_label sorted_bounds
      no_sample

leb_trans : (x y z : ℕ) → leb x y ≡ true → leb y z ≡ true → leb x z ≡ true
leb_trans x y z h k = ground arith

cumulative_bucket_counts-Rising_example :
    (cumulative_bucket_counts millis waits (5 ∷ 10 ∷ [])
      ≡ ok (zip (with_inf (5 ∷ 10 ∷ [])) (le_counts millis waits (5 ∷ 10 ∷ []))))
    × Rising millis (le_counts millis waits (5 ∷ 10 ∷ []))
cumulative_bucket_counts-Rising_example =
    cumulative_bucket_counts-Rising millis leb_trans waits (5 ∷ 10 ∷ []) sorted_bounds

counted_waits :
    cumulative_bucket_counts millis waits (5 ∷ 10 ∷ [])
    ≡ ok ((finite 5, 1) ∷ (finite 10, 2) ∷ (infinite, 3) ∷ [])
unfolding cumulative_bucket_counts
counted_waits = refl

abbrev odd_label : LabelKey
odd_label = (codes "model", codes "a\"b") ∷ (codes "status", codes "ok,\n}") ∷ []

read_labels-format_label_key_example :
    read_labels (format_label_key odd_label ++ (codes " " ++ codes "1"))
    ≡ some (odd_label, codes " " ++ codes "1")
read_labels-format_label_key_example = read_labels-format_label_key odd_label (codes "1") (
  (refl, (refl, (refl, (refl, (refl, tt))))),
  ((refl, (refl, (refl, (refl, (refl, (refl, tt)))))), tt),
)

abbrev finished_request : GenerationResult ℕ
finished_request = record {
  request_id = codes "r1";
  text = codes "hi";
  prompt_tokens = 4;
  completion_tokens = 2;
  finish_reason = FinishReason.stop;
  ttft_s = some 7;
  e2e_latency_s = 9;
  inter_token_latencies_s = 2 ∷ [];
  cached_prompt_tokens = 0;
}

abbrev seen_events : List (Event ℕ)
seen_events =
    of_result finished_request (codes "mock") (codes "m") (codes "ok")
    ∷ of_stats (codes "mock") (codes "m") 1 0 3 0
    ∷ []

ten_ascends : ascends millis (10 ∷ []) ≡ true
unfolding ascends
ten_ascends = refl

serving_metrics-record_events_example :
    (r : Registry ℕ) × (serving_metrics millis (codes "llm_serve") (10 ∷ []) (10 ∷ []) (5 ∷ 10 ∷ [])
        >>= record_events millis (codes "llm_serve") seen_events
      ≡ ok r)
    × ((name : Str) → names_of (get_metric (codes "llm_serve") name r) ≡ lookup name server_names)
serving_metrics-record_events_example =
    serving_metrics-record_events millis (codes "llm_serve") refl (λ n. refl) (10 ∷ []) (10 ∷ [])
      (5 ∷ 10 ∷ []) seen_events refl ten_ascends refl ten_ascends refl sorted_bounds

abbrev counted_request : Metric ℕ
counted_request = record {
  kind = counter;
  name = codes "llm_serve_requests_total";
  documentation = codes "Completion requests received.";
  labelnames = codes "backend" ∷ [];
  values = ((codes "backend", codes "mock") ∷ [], 1) ∷ [];
  bounds = [];
  counts = [];
  sums = [];
}

rendered_counter :
    render millis ((codes "llm_serve_requests_total", counted_request) ∷ [])
    ≡ codes
        "# HELP llm_serve_requests_total Completion requests received.\n# TYPE llm_serve_requests_total counter\nllm_serve_requests_total_total{backend=\"mock\"} 1\n"
unfolding render join_lines show
rendered_counter = refl
