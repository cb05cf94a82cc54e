-- ===== src/Metrics/Serving/Names.antt =====
-- llm_serve/metrics/registry.py: the names and the labels of the metrics of the server.
use mathlib.Core.Path.{subst}
use llm_serve.Prelude.{
  take, ◌+◌, ℕ, ◌≡◌, refl, sym, ap, ◌∙◌, Bool, true, false, Option, none, some, List, [], ◌∷◌, ◌++◌,
  Str, codes, str_eq, Dict, lookup, insert, lookup-insert, if◌then◌else◌, Result, ok, arith,
}
use llm_serve.Prelude.Results.{◌>>=◌}
use llm_serve.Api.ChatTemplate.{empty}
use llm_serve.Metrics.Registry.{Amounts, Metric, Kind, counter, gauge, histogram, ascends}
use llm_serve.Metrics.Serving.{
  Registry, qualify, new_metric, register, add_histogram, labels, serving_metrics,
}

str_eq-append : (s t u : Str) → str_eq (s ++ t) (s ++ u) ≡ str_eq t u
unfolding str_eq
str_eq-append [] t u = refl
str_eq-append (c ∷ s) t u = ground (arith, str_eq-append s t u)

pub str_eq-qualify : (ns a b : Str) → str_eq (qualify ns a) (qualify ns b) ≡ str_eq a b
unfolding qualify
str_eq-qualify [] a b = refl
str_eq-qualify (c ∷ ns) a b =
    str_eq-append (c ∷ ns) (codes "_" ++ a) (codes "_" ++ b) ∙ str_eq-append (codes "_") a b

module _ {Num : Type 0} where
  abbrev pub names_of : Option (Metric Num) → Option (List Str)
  names_of none = none
  names_of (some m) = some m.labelnames

  -- The names that are registered, with the names of their labels.
  abbrev pub Holds : Str → Dict (List Str) → Registry Num → Type 0
  Holds ns specs r = (j : Str) → names_of (lookup (qualify ns j) r) ≡ lookup j specs

  pub names_of-if :
      (b : Bool) (m : Metric Num) (o : Option (Metric Num))
      → names_of (if b then some m else o) ≡ (if b then some m.labelnames else names_of o)
  names_of-if true m o = refl
  names_of-if false m o = refl

  pub names_of_inv : (o : Option (Metric Num)) → names_of o ≡ none → o ≡ none
  names_of_inv none h = refl
  names_of_inv (some m) h = cc

  pub Holds-insert :
      (ns name : Str) (m : Metric Num) (specs : Dict (List Str)) (r : Registry Num)
      → Holds ns specs r
      → Holds ns (insert name m.labelnames specs) (insert (qualify ns name) m r)
  Holds-insert ns name m specs r h j =
      ap names_of (lookup-insert (qualify ns name) (qualify ns j) m r)
      ∙ names_of-if (str_eq (qualify ns name) (qualify ns j)) m (lookup (qualify ns j) r)
      ∙ rw (str_eq-qualify ns name j) (rw (h j) refl)
      ∙ sym (lookup-insert name j m.labelnames specs)

  -- A call that returns a registry with these names.
  abbrev pub Gives : Str → Dict (List Str) → Result (Registry Num) → Type 0
  Gives ns specs x = (r : Registry Num) × (x ≡ ok r) × Holds ns specs r

  pub Gives-next :
      (ns : Str) (specs more : Dict (List Str)) (x : Result (Registry Num))
      (rest : Registry Num → Result (Registry Num))
      → Gives ns specs x
      → ((r : Registry Num) → Holds ns specs r → Gives ns more (rest r))
      → Gives ns more (x >>= rest)
  Gives-next ns specs more x rest (r, e, h) k = rw e (k r h)

  register-Gives :
      (ns name : Str) (kind : Kind) (doc : Str) (names : List Str) (bounds : List Num)
      (specs : Dict (List Str)) (r : Registry Num)
      → lookup name specs ≡ none
      → Holds ns specs r
      → Gives ns
          (insert name names specs)
          (register (new_metric kind (qualify ns name) doc names bounds) r)
  unfolding register
  register-Gives ns name kind doc names bounds specs r new h =
      let m = new_metric kind (qualify ns name) doc names bounds in
      (
        insert (qualify ns name) m r,
        rw (names_of_inv (lookup (qualify ns name) r) (h name ∙ new)) refl,
        Holds-insert ns name m specs r h,
      )

-- The names of the twelve metrics, and the names of their labels.
abbrev pub labelled : List Str
labelled = codes "backend" ∷ codes "model" ∷ []

abbrev pub server_names : Dict (List Str)
server_names =
    (codes "requests_total", codes "backend" ∷ codes "model" ∷ codes "status" ∷ [])
    ∷ (codes "prompt_tokens_total", labelled)
    ∷ (codes "generation_tokens_total", labelled)
    ∷ (codes "cached_prompt_tokens_total", labelled)
    ∷ (codes "time_to_first_token_seconds", labelled)
    ∷ (codes "inter_token_latency_seconds", labelled)
    ∷ (codes "e2e_request_latency_seconds", labelled)
    ∷ (codes "num_requests_running", labelled)
    ∷ (codes "num_requests_waiting", labelled)
    ∷ (codes "gpu_kv_cache_usage_perc", labelled)
    ∷ (codes "prefix_cache_hit_rate", labelled)
    ∷ (codes "preemptions_total", labelled)
    ∷ []

-- The names of the metrics that are registered first
abbrev first : ℕ → Dict (List Str)
first n = take n server_names

module _ {Num : Type 0} (A : Amounts Num) (ns : Str) where
  add_histogram-Gives :
      (name doc : Str) (names : List Str) (bounds : List Num) (specs : Dict (List Str))
      → empty bounds ≡ false
      → ascends A bounds ≡ true
      → lookup name specs ≡ none
      → (r : Registry Num) → Holds ns specs r
      → Gives ns (insert name names specs) (add_histogram A ns name doc bounds names r)
  add_histogram-Gives name doc names bounds specs some_bound up new r h =
      rw some_bound (rw up (register-Gives ns name histogram doc names bounds specs r new h))

  plus_metric :
      (kind : Kind) (doc : Str) (bounds : List Num) (n : ℕ) (name : Str) (names : List Str)
      (x : Result (Registry Num))
      → lookup name (first n) ≡ none
      → insert name names (first n) ≡ first (n + 1)
      → Gives ns (first n) x
      → Gives ns
          (first (n + 1))
          (x >>= register (new_metric kind (qualify ns name) doc names bounds))
  plus_metric kind doc bounds n name names x new grown h =
      subst
        (λ specs.
          Gives ns specs (x >>= register (new_metric kind (qualify ns name) doc names bounds)))
        grown
        (Gives-next ns (first n) (insert name names (first n)) x
          (register (new_metric kind (qualify ns name) doc names bounds)) h
          (λ r k. register-Gives ns name kind doc names bounds (first n) r new k))

  plus_histogram :
      (doc : Str) (bounds : List Num) (n : ℕ) (name : Str) (names : List Str)
      (x : Result (Registry Num))
      → empty bounds ≡ false
      → ascends A bounds ≡ true
      → lookup name (first n) ≡ none
      → insert name names (first n) ≡ first (n + 1)
      → Gives ns (first n) x
      → Gives ns (first (n + 1)) (x >>= add_histogram A ns name doc bounds names)
  plus_histogram doc bounds n name names x some_bound up new grown h =
      subst (λ specs. Gives ns specs (x >>= add_histogram A ns name doc bounds names)) grown
        (Gives-next ns (first n) (insert name names (first n)) x
          (add_histogram A ns name doc bounds names) h
          (λ r k. add_histogram-Gives name doc names bounds (first n) some_bound up new r k))

  pub serving_metrics-Gives :
      (ttft itl e2e : List Num)
      → empty ttft ≡ false
      → ascends A ttft ≡ true
      → empty itl ≡ false
      → ascends A itl ≡ true
      → empty e2e ≡ false
      → ascends A e2e ≡ true
      → Gives ns server_names (serving_metrics A ns ttft itl e2e)
  unfolding serving_metrics lookup insert str_eq
  serving_metrics-Gives ttft itl e2e t tu i iu e eu =
      plus_metric counter _ [] 11 (codes "preemptions_total") (labels A) _ refl refl (
        plus_metric gauge _ [] 10 (codes "prefix_cache_hit_rate") (labels A) _ refl refl (
          plus_metric gauge _ [] 9 (codes "gpu_kv_cache_usage_perc") (labels A) _ refl refl (
            plus_metric gauge _ [] 8 (codes "num_requests_waiting") (labels A) _ refl refl (
              plus_metric gauge _ [] 7 (codes "num_requests_running") (labels A) _ refl refl (
                plus_histogram _ e2e 6 (codes "e2e_request_latency_seconds") (labels A) _ e eu refl
                  refl
                  (plus_histogram _ itl 5 (codes "inter_token_latency_seconds") (labels A) _ i iu
                    refl refl
                    (plus_histogram _ ttft 4 (codes "time_to_first_token_seconds") (labels A) _ t tu
                      refl refl
                      (plus_metric counter _ [] 3 (codes "cached_prompt_tokens_total") (labels A) _
                        refl refl
                        (plus_metric counter _ [] 2 (codes "generation_tokens_total") (labels A) _
                          refl refl
                          (plus_metric counter _ [] 1 (codes "prompt_tokens_total") (labels A) _
                            refl refl
                            (plus_metric counter _ [] 0 (codes "requests_total")
                              (labels A ++ codes "status" ∷ []) (ok []) refl refl
                              (([], refl, λ j. refl)))))))))))))
