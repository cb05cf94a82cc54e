-- ===== src/Metrics/Serving/Calls.antt =====
-- llm_serve/metrics/registry.py: a call on one metric of the server.
use llm_serve.Prelude.{
  ◌≡◌, refl, ap, ◌∙◌, false, Option, none, some, List, [], ◌∷◌, ◌++◌, Str, codes, str_eq, Dict,
  lookup, insert, insert_same, Result, ok,
}
use llm_serve.Metrics.Registry.{
  Amounts, LabelKey, Metric, key_of, ordered_key, inc_counter, set_gauge, observe, observe_all,
  observed, add_value, put_key,
}
use llm_serve.Metrics.Serving.{
  Registry, qualify, on_metric, counted, seen, put_gauge, metric_labels,
}
use llm_serve.Metrics.Serving.Names.{names_of, Holds, Holds-insert, Gives, labelled, server_names}

-- A call on a metric that returns one with the same label names.
abbrev pub Keeps : {Num : Type 0} → Metric Num → Result (Metric Num) → Type 0
Keeps {Num = Num} m x = (n : Metric Num) × (x ≡ ok n) × (n.labelnames ≡ m.labelnames)

module _ {Num : Type 0} (A : Amounts Num) (ns : Str) where
  names_some_inv :
      (o : Option (Metric Num)) (v : List Str)
      → names_of o ≡ some v
      → (m : Metric Num) × (o ≡ some m) × (m.labelnames ≡ v)
  names_some_inv none v h = cc
  names_some_inv (some m) v h = (m, refl, cc)

  pub on_metric-Gives :
      (name : Str) (names : List Str) (change : Metric Num → Result (Metric Num)) (r : Registry Num)
      → lookup name server_names ≡ some names
      → ((m : Metric Num) → m.labelnames ≡ names → Keeps m (change m))
      → Holds ns server_names r
      → Gives ns server_names (on_metric A (qualify ns name) change r)
  on_metric-Gives name names change r known keeps h =
      let (m, found, l) = names_some_inv (lookup (qualify ns name) r) names (h name ∙ known) in
      let (n, run, same) = keeps m l in
      (
        insert (qualify ns name) n r,
        rw found (rw run refl),
        λ j.
            Holds-insert ns name n server_names r h j
            ∙ ap (λ v. lookup j (insert name v server_names)) (same ∙ l)
            ∙ ap (lookup j) (insert_same name names server_names known),
      )

  pub key_of-labelled :
      (backend model : Str) (m : Metric Num)
      → m.labelnames ≡ labelled
      → key_of A m (metric_labels A ns backend model) ≡ ok (metric_labels A ns backend model)
  unfolding key_of ordered_key lookup str_eq
  key_of-labelled backend model m l = rw l refl

  pub key_of-status :
      (backend model status : Str) (m : Metric Num)
      → m.labelnames ≡ codes "backend" ∷ codes "model" ∷ codes "status" ∷ []
      → key_of A m (metric_labels A ns backend model ++ (codes "status", status) ∷ [])
        ≡ ok (metric_labels A ns backend model ++ (codes "status", status) ∷ [])
  unfolding key_of ordered_key lookup str_eq
  key_of-status backend model status m l = rw l refl

  pub inc_counter-Keeps :
      (amount : Num) (ls : Dict Str) (m : Metric Num) (key : LabelKey)
      → A.negative amount ≡ false
      → key_of A m ls ≡ ok key
      → Keeps m (inc_counter A amount ls m)
  unfolding inc_counter
  inc_counter-Keeps amount ls m key up k = (add_value A amount m key, rw up (rw k refl), refl)

  set_gauge-Keeps :
      (value : Num) (ls : Dict Str) (m : Metric Num) (key : LabelKey)
      → key_of A m ls ≡ ok key
      → Keeps m (set_gauge A value ls m)
  unfolding set_gauge
  set_gauge-Keeps value ls m key k =
      (record m { values = put_key key value m.values }, rw k refl, refl)

  observe-Keeps :
      (value : Num) (ls : Dict Str) (m : Metric Num) (key : LabelKey)
      → key_of A m ls ≡ ok key
      → Keeps m (observe A value ls m)
  unfolding observe
  observe-Keeps value ls m key k = (observed A value m key, rw k refl, refl)

  pub observe_all-Keeps :
      (values : List Num) (ls : Dict Str) (m : Metric Num) (key : LabelKey)
      → key_of A m ls ≡ ok key
      → Keeps m (observe_all A values ls m)
  unfolding observe_all observe key_of
  observe_all-Keeps [] ls m key k = (m, refl, refl)
  observe_all-Keeps (x ∷ xs) ls m key k =
      let (n, run, same) = observe_all-Keeps xs ls (observed A x m key) key k in (n, rw k run, same)

  -- The calls on the metrics with the two labels
  pub counted-Gives :
      (name : Str) (amount : Num) (backend model : Str) (r : Registry Num)
      → lookup name server_names ≡ some labelled
      → A.negative amount ≡ false
      → Holds ns server_names r
      → Gives ns server_names (counted A ns name amount (metric_labels A ns backend model) r)
  counted-Gives name amount backend model r known up h =
      on_metric-Gives name labelled (inc_counter A amount (metric_labels A ns backend model)) r
        known
        (λ m l.
          inc_counter-Keeps amount (metric_labels A ns backend model) m
            (metric_labels A ns backend model) up (key_of-labelled backend model m l))
        h

  pub put_gauge-Gives :
      (name : Str) (value : Num) (backend model : Str) (r : Registry Num)
      → lookup name server_names ≡ some labelled
      → Holds ns server_names r
      → Gives ns server_names (put_gauge A ns name value (metric_labels A ns backend model) r)
  put_gauge-Gives name value backend model r known h =
      on_metric-Gives name labelled (set_gauge A value (metric_labels A ns backend model)) r known
        (λ m l.
          set_gauge-Keeps value (metric_labels A ns backend model) m
            (metric_labels A ns backend model) (key_of-labelled backend model m l))
        h

  pub seen-Gives :
      (name : Str) (value : Option Num) (backend model : Str) (r : Registry Num)
      → lookup name server_names ≡ some labelled
      → Holds ns server_names r
      → Gives ns server_names (seen A ns name value (metric_labels A ns backend model) r)
  seen-Gives name none backend model r known h = (r, refl, h)
  seen-Gives name (some x) backend model r known h =
      on_metric-Gives name labelled (observe A x (metric_labels A ns backend model)) r known
        (λ m l.
          observe-Keeps x (metric_labels A ns backend model) m (metric_labels A ns backend model)
            (key_of-labelled backend model m l))
        h
