-- ===== src/Config/Checks.antt =====
-- llm_serve/config.py: what the checks of a configuration leave true of it.
use llm_serve.Prelude.{◌≡◌, some, Str, codes, lookup, Dict, Result, ok, arith}
use llm_serve.Prelude.Results.{◌>>=◌, bind-ok_inv}
use llm_serve.Values.{Runtime}
use llm_serve.Config.{Section, Config, attr}
use llm_serve.Config.Validate.{
  validate_model, validate_backend, validate_scheduler, validate_server, validate_metrics,
  validate_bench, validate_limits, validate,
}

module _ {A : Type 0} where
  pub attr-lookup :
      (name : Str) (section : Dict A) (v w : A)
      → lookup name section ≡ some v
      → attr name section ≡ ok w
      → w ≡ v
  unfolding attr
  attr-lookup name section v w h k = ground (arith, h, k)

module _ {A B : Type 0} where
  -- A check of one attribute, in a chain of them.
  pub checked_inv :
      (name : Str) (section : Dict A) (check : A → Result (Unit {0})) (rest : A → Result B) {b : B}
      → (attr name section >>= λ v. check v >>= λ _. rest v) ≡ ok b
      → (v : A) × (attr name section ≡ ok v) × (check v ≡ ok tt) × (rest v ≡ ok b)
  checked_inv name section check rest h =
      let (v, found, more) = bind-ok_inv (attr name section) (λ v. check v >>= λ _. rest v) h in
      let (u, passed, last) = bind-ok_inv (check v) (λ _. rest v) more in (v, found, passed, last)

-- The sections of a configuration, each with the check that it has passed.
pub record Valid {Float : Type 0} (R : Runtime Float) (config : Config Float) : Type 0 where
  pub model : Section Float
  pub backend : Section Float
  pub scheduler : Section Float
  pub server : Section Float
  pub metrics : Section Float
  pub bench : Section Float
  pub model_at : attr (codes "model") config ≡ ok model
  pub backend_at : attr (codes "backend") config ≡ ok backend
  pub scheduler_at : attr (codes "scheduler") config ≡ ok scheduler
  pub server_at : attr (codes "server") config ≡ ok server
  pub metrics_at : attr (codes "metrics") config ≡ ok metrics
  pub bench_at : attr (codes "bench") config ≡ ok bench
  pub model_valid : validate_model R model ≡ ok tt
  pub backend_valid : validate_backend R backend ≡ ok tt
  pub scheduler_valid : validate_scheduler R scheduler ≡ ok tt
  pub server_valid : validate_server R server ≡ ok tt
  pub metrics_valid : validate_metrics R metrics ≡ ok tt
  pub bench_valid : validate_bench R bench ≡ ok tt
  pub limits_valid : validate_limits R model scheduler ≡ ok tt

module _ {Float : Type 0} (R : Runtime Float) where
  pub validate_inv :
      (config : Config Float) {out : Config Float}
      → validate R config ≡ ok out
      → Valid R config × (config ≡ out)
  unfolding validate
  validate_inv config h =
      let (model, m, m', h1) = checked_inv (codes "model") config (validate_model R) _ h in
      let (backend, b, b', h2) = checked_inv (codes "backend") config (validate_backend R) _ h1 in
      let (scheduler, s, s', h3) =
        checked_inv (codes "scheduler") config (validate_scheduler R) _ h2 in
      let (server, v, v', h4) = checked_inv (codes "server") config (validate_server R) _ h3 in
      let (metrics, t, t', h5) = checked_inv (codes "metrics") config (validate_metrics R) _ h4 in
      let (bench, n, n', h6) = checked_inv (codes "bench") config (validate_bench R) _ h5 in
      let (u, l, last) = bind-ok_inv (validate_limits R model scheduler) (λ _. ok config) h6 in
      (
        record {
          model = model;
          backend = backend;
          scheduler = scheduler;
          server = server;
          metrics = metrics;
          bench = bench;
          model_at = m;
          backend_at = b;
          scheduler_at = s;
          server_at = v;
          metrics_at = t;
          bench_at = n;
          model_valid = m';
          backend_valid = b';
          scheduler_valid = s';
          server_valid = v';
          metrics_valid = t';
          bench_valid = n';
          limits_valid = l;
        },
        cc,
      )
