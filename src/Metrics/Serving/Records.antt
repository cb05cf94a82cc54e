-- ===== src/Metrics/Serving/Records.antt =====
-- llm_serve/metrics/registry.py: what the server records on its metrics.
use llm_serve.Prelude.{
  ℕ, zero, suc, ◌≡◌, refl, true, false, some, List, [], ◌∷◌, ◌++◌, Str, codes, str_eq, lookup,
  Result, ok,
}
use llm_serve.Prelude.Results.{◌>>=◌}
use llm_serve.Api.ChatTemplate.{empty}
use llm_serve.Types.{GenerationResult}
use llm_serve.Metrics.Registry.{Amounts, ascends, inc_counter, observe_all}
use llm_serve.Metrics.Serving.{
  Registry, qualify, get_metric, on_metric, counted, counted_some, metric_labels, serving_metrics,
  observe_result, observe_stats,
}
use llm_serve.Metrics.Serving.Names.{
  names_of, Holds, Gives, Gives-next, labelled, server_names, serving_metrics-Gives,
}
use llm_serve.Metrics.Serving.Calls.{
  on_metric-Gives, key_of-labelled, key_of-status, inc_counter-Keeps, observe_all-Keeps,
  counted-Gives, put_gauge-Gives, seen-Gives,
}

-- What the server hands to its metrics: a finished request, or a snapshot of a backend.
pub data Event (Num : Type 0) : Type 0 where
  of_result : GenerationResult Num → Str → Str → Str → Event Num
  of_stats : Str → Str → Num → Num → Num → Num → Event Num

module _ {Num : Type 0} (A : Amounts Num) (ns : Str) where
  unfoldable pub record_event : Event Num → Registry Num → Result (Registry Num)
  unfolding observe_result observe_stats
  record_event (of_result result backend model status) r =
      observe_result A ns result backend model status r
  record_event (of_stats backend model running waiting usage rate) r =
      observe_stats A ns backend model running waiting usage rate r

  unfoldable pub record_events : List (Event Num) → Registry Num → Result (Registry Num)
  unfolding record_event
  record_events [] r = ok r
  record_events (e ∷ es) r = record_event e r >>= record_events es

  module _ (one : A.negative A.one ≡ false)
      (counts : (n : ℕ) → A.negative (A.of_count n) ≡ false) where
    counted_some-Gives :
        (name : Str) (n : ℕ) (backend model : Str) (r : Registry Num)
        → lookup name server_names ≡ some labelled
        → Holds ns server_names r
        → Gives ns server_names (counted_some A ns name n (metric_labels A ns backend model) r)
    counted_some-Gives name zero backend model r known h = (r, refl, h)
    counted_some-Gives name (suc n) backend model r known h =
        counted-Gives A ns name (A.of_count (suc n)) backend model r known (counts (suc n)) h

    requests-Gives :
        (backend model status : Str) (r : Registry Num)
        → Holds ns server_names r
        → Gives ns server_names (
            counted A ns
              (codes "requests_total")
              A.one
              (metric_labels A ns backend model ++ (codes "status", status) ∷ [])
              r)
    unfolding lookup str_eq
    requests-Gives backend model status r h =
        let ls = metric_labels A ns backend model ++ (codes "status", status) ∷ [] in
        on_metric-Gives A ns (codes "requests_total")
          (codes "backend" ∷ codes "model" ∷ codes "status" ∷ []) (inc_counter A A.one ls) r refl
          (λ m l.
            inc_counter-Keeps A ns A.one ls m ls one (key_of-status A ns backend model status m l))
          h

    latencies-Gives :
        (xs : List Num) (backend model : Str) (r : Registry Num)
        → Holds ns server_names r
        → Gives ns server_names (
            on_metric A
              (qualify ns (codes "inter_token_latency_seconds"))
              (observe_all A xs (metric_labels A ns backend model))
              r)
    unfolding lookup str_eq
    latencies-Gives xs backend model r h =
        let ls = metric_labels A ns backend model in
        on_metric-Gives A ns (codes "inter_token_latency_seconds") labelled (observe_all A xs ls) r
          refl (λ m l. observe_all-Keeps A ns xs ls m ls (key_of-labelled A ns backend model m l)) h

    next :
        (x : Result (Registry Num)) (rest : Registry Num → Result (Registry Num))
        → Gives ns server_names x
        → ((r : Registry Num) → Holds ns server_names r → Gives ns server_names (rest r))
        → Gives ns server_names (x >>= rest)
    next x rest g k = Gives-next ns server_names server_names x rest g k

    observe_result-Gives :
        (result : GenerationResult Num) (backend model status : Str) (r : Registry Num)
        → Holds ns server_names r
        → Gives ns server_names (observe_result A ns result backend model status r)
    unfolding observe_result lookup str_eq
    observe_result-Gives result b m status r h =
        next _ _
          (next _ _
            (next _ _
              (next _ _
                (next _ _
                  (next _ _ (requests-Gives b m status r h) (λ r h.
                    counted-Gives A ns (codes "prompt_tokens_total")
                      (A.of_count result.prompt_tokens) b m r refl (counts result.prompt_tokens) h))
                  (λ r h.
                    counted-Gives A ns (codes "generation_tokens_total")
                      (A.of_count result.completion_tokens) b m r refl
                      (counts result.completion_tokens) h))
                (λ r h.
                  counted_some-Gives (codes "cached_prompt_tokens_total")
                    result.cached_prompt_tokens b m r refl h))
              (λ r h.
                seen-Gives A ns (codes "time_to_first_token_seconds") result.ttft_s b m r refl h))
            (λ r h.
              seen-Gives A ns (codes "e2e_request_latency_seconds") (some result.e2e_latency_s) b m
                r refl h))
          (λ r h. latencies-Gives result.inter_token_latencies_s b m r h)

    observe_stats-Gives :
        (b m : Str) (running waiting usage rate : Num) (r : Registry Num)
        → Holds ns server_names r
        → Gives ns server_names (observe_stats A ns b m running waiting usage rate r)
    unfolding observe_stats lookup str_eq
    observe_stats-Gives b m running waiting usage rate r h =
        next _ _
          (next _ _
            (next _ _ (put_gauge-Gives A ns (codes "num_requests_running") running b m r refl h)
              (λ r h. put_gauge-Gives A ns (codes "num_requests_waiting") waiting b m r refl h))
            (λ r h. put_gauge-Gives A ns (codes "gpu_kv_cache_usage_perc") usage b m r refl h))
          (λ r h. put_gauge-Gives A ns (codes "prefix_cache_hit_rate") rate b m r refl h)

    record_events-Gives :
        (es : List (Event Num)) (r : Registry Num)
        → Holds ns server_names r
        → Gives ns server_names (record_events es r)
    unfolding record_events record_event
    record_events-Gives [] r h = (r, refl, h)
    record_events-Gives (of_result x b m status ∷ es) r h =
        next _ _ (observe_result-Gives x b m status r h) (record_events-Gives es)
    record_events-Gives (of_stats b m running waiting usage rate ∷ es) r h =
        next _ _ (observe_stats-Gives b m running waiting usage rate r h) (record_events-Gives es)

    -- If the three lists of bounds are not empty and ascend, and one and every token count are not
    -- negative as values, then constructing the metrics of the server under any namespace and
    -- recording any finished requests and backend snapshots in any order raises nothing, and `get`
    -- then finds a metric for exactly the twelve names of the class, each with its label names.
    pub serving_metrics-record_events :
        (ttft itl e2e : List Num) (events : List (Event Num))
        → empty ttft ≡ false
        → ascends A ttft ≡ true
        → empty itl ≡ false
        → ascends A itl ≡ true
        → empty e2e ≡ false
        → ascends A e2e ≡ true
        → (r : Registry Num) × (serving_metrics A ns ttft itl e2e >>= record_events events ≡ ok r)
          × ((name : Str) → names_of (get_metric ns name r) ≡ lookup name server_names)
    unfolding get_metric
    serving_metrics-record_events ttft itl e2e events t tu i iu e eu =
        next (serving_metrics A ns ttft itl e2e) (record_events events)
          (serving_metrics-Gives A ns ttft itl e2e t tu i iu e eu) (record_events-Gives events)
