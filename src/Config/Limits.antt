-- ===== src/Config/Limits.antt =====
-- llm_serve/config.py: the integer limits of a configuration that `build_config` returns.
use mathlib.Core.Path.{subst}
use llm_serve.Prelude.{
  ℕ, ◌≡◌, refl, sym, Bool, true, false, not, Option, some, List, [], ◌∷◌, Str, codes, lookup, Dict,
  ok, ℤ, pos, negsuc, ◌≤◌, ◌*◌, arith, ◌==◌, ◌||◌, int_lt, int_mul, config_error,
}
use llm_serve.Prelude.Results.{ensure, ensure_inv}
use llm_serve.Values.{Value, int, Runtime}
use llm_serve.Values.Order.{value_lt, value_eq}
use llm_serve.Config.{Section, Config, attr}
use llm_serve.Config.Validate.{
  validate_model, validate_scheduler, validate_limits, at_least, at_most, is_one_of_numbers,
}
use llm_serve.Config.Layers.{build_config}
use llm_serve.Config.Yaml.{Node}
use llm_serve.Config.Options.{Set, build_config_inv}
use llm_serve.Config.Checks.{attr-lookup, checked_inv}

abbrev pub is_in_numbers : List ℕ → ℕ → Bool
is_in_numbers [] n = false
is_in_numbers (m ∷ ms) n = n == m || is_in_numbers ms n

abbrev pub block_sizes : List ℕ
block_sizes = 8 ∷ 16 ∷ 32 ∷ 64 ∷ 128 ∷ []

module _ {Float : Type 0} (R : Runtime Float) where
  at_least_int : (w v : ℤ) → at_least R (int w) (int v) ≡ ok tt → int_lt v w ≡ false
  unfolding value_lt value_eq
  at_least_int w v h = ground (arith, ensure_inv (not (int_lt v w)) config_error h)

  at_most_int : (w v : ℤ) → at_most R (int w) (int v) ≡ ok tt → int_lt w v ≡ false
  unfolding value_lt value_eq
  at_most_int w v h = ground (arith, ensure_inv (not (int_lt w v)) config_error h)

  one_of_pos : (ms : List ℕ) (n : ℕ) → is_one_of_numbers R ms (int (pos n)) ≡ is_in_numbers ms n
  unfolding value_eq
  one_of_pos [] n = refl
  one_of_pos (m ∷ ms) n = rw (one_of_pos ms n) refl

  one_of_negsuc : (ms : List ℕ) (n : ℕ) → is_one_of_numbers R ms (int (negsuc n)) ≡ false
  unfolding value_eq
  one_of_negsuc [] n = refl
  one_of_negsuc (m ∷ ms) n = one_of_negsuc ms n

  one_of_int :
      (ms : List ℕ) (v : ℤ)
      → is_one_of_numbers R ms (int v) ≡ true
      → (n : ℕ) × (v ≡ pos n) × (is_in_numbers ms n ≡ true)
  one_of_int ms (pos n) h = (n, refl, ground (arith, one_of_pos ms n, h))
  one_of_int ms (negsuc n) h = absurd (ground (arith, one_of_negsuc ms n, h))

  -- The limits of the scheduler.
  record SchedulerLimits (block_size max_num_seqs max_tokens : ℤ) : Type 0 where
    size : (b : ℕ) × (block_size ≡ pos b) × (is_in_numbers block_sizes b ≡ true)
    seqs : int_lt max_num_seqs (pos 1) ≡ false
    tokens : int_lt max_tokens block_size ≡ false

  scheduler_limits :
      (section : Section Float) (b n t : ℤ)
      → lookup (codes "block_size") section ≡ some (int b)
      → lookup (codes "max_num_seqs") section ≡ some (int n)
      → lookup (codes "max_num_batched_tokens") section ≡ some (int t)
      → validate_scheduler R section ≡ ok tt
      → SchedulerLimits b n t
  unfolding validate_scheduler
  scheduler_limits section b n t hb hn ht h =
      let (size, b_at, b_ok, h1) =
        checked_inv (codes "block_size") section
          (λ v. ensure (is_one_of_numbers R block_sizes v) config_error) _ h in
      let (seqs, n_at, n_ok, h2) =
        checked_inv (codes "max_num_seqs") section (at_least R (int (pos 1))) _ h1 in
      let (tokens, t_at, t_ok, h3) =
        checked_inv (codes "max_num_batched_tokens") section (at_least R size) _ h2 in
      let eb : size ≡ int b = attr-lookup (codes "block_size") section (int b) size hb b_at in
      let en : seqs ≡ int n = attr-lookup (codes "max_num_seqs") section (int n) seqs hn n_at in
      let et : tokens ≡ int t =
        attr-lookup (codes "max_num_batched_tokens") section (int t) tokens ht t_at in
      record {
        size = one_of_int block_sizes b (
            ensure_inv (is_one_of_numbers R block_sizes (int b)) config_error (
              subst (λ v. ensure (is_one_of_numbers R block_sizes v) config_error ≡ ok tt) eb
                b_ok));
        seqs = at_least_int (pos 1) n (subst (λ v. at_least R (int (pos 1)) v ≡ ok tt) en n_ok);
        tokens = at_least_int b t (
            subst (λ v. at_least R (int b) v ≡ ok tt) et
              (subst (λ w. at_least R w tokens ≡ ok tt) eb t_ok));
      }

  model_limit :
      (section : Section Float) (l : ℤ)
      → lookup (codes "max_model_len") section ≡ some (int l)
      → validate_model R section ≡ ok tt
      → int_lt l (pos 128) ≡ false
  unfolding validate_model
  model_limit section l hl h =
      let (len, at, passed, rest) =
        checked_inv (codes "max_model_len") section (at_least R (int (pos 128))) _ h in
      let el : len ≡ int l = attr-lookup (codes "max_model_len") section (int l) len hl at in
      at_least_int (pos 128) l (subst (λ v. at_least R (int (pos 128)) v ≡ ok tt) el passed)

  held_limit :
      (model scheduler : Section Float) (n t l : ℤ)
      → lookup (codes "max_num_batched_tokens") scheduler ≡ some (int t)
      → lookup (codes "max_model_len") model ≡ some (int l)
      → lookup (codes "max_num_seqs") scheduler ≡ some (int n)
      → validate_limits R model scheduler ≡ ok tt
      → int_lt (int_mul l n) t ≡ false
  unfolding validate_limits attr
  held_limit model scheduler n t l ht hl hn h =
      at_most_int (int_mul l n) t (ground (arith, ht, hl, hn, h))

  -- Integers under these limits are natural numbers.
  in_naturals :
      (b n t l : ℤ)
      → SchedulerLimits b n t
      → int_lt l (pos 128) ≡ false
      → int_lt (int_mul l n) t ≡ false
      → (b' n' t' l' : ℕ) × (b ≡ pos b')
        × (n ≡ pos n')
        × (t ≡ pos t')
        × (l ≡ pos l')
        × (is_in_numbers block_sizes b' ≡ true)
        × (1 ≤ n')
        × (128 ≤ l')
        × (b' ≤ t')
        × (t' ≤ l' * n')
  in_naturals b (negsuc n) t l limits len held = absurd (ground (arith, limits.seqs))
  in_naturals b n t (negsuc l) limits len held = absurd (ground (arith, len))
  in_naturals b (pos n) (negsuc t) (pos l) limits len held =
      let (b', eb, size) = limits.size in absurd (ground (arith, limits.tokens, eb))
  in_naturals b (pos n) (pos t) (pos l) limits len held =
      let (b', eb, size) = limits.size in
      (
        b',
        n,
        t,
        l,
        eb,
        refl,
        refl,
        refl,
        size,
        ground (arith, limits.seqs),
        ground (arith, len),
        ground (arith, limits.tokens, eb),
        ground (arith, held),
      )

  pub Set-attr :
      (s o : Str) (v : Value Float) (config : Config Float) (section : Section Float)
      → Set s o v config
      → attr s config ≡ ok section
      → lookup o section ≡ some v
  Set-attr s o v config section (found, here, has) at =
      subst (λ d. lookup o d ≡ some v) (sym (attr-lookup s config found section here at)) has

  -- In a configuration that `build_config` returns, whose block size, largest number of sequences,
  -- token budget and longest model length are integers, these are natural numbers: the block size
  -- is 8, 16, 32, 64 or 128, there is at least one sequence, the model length is at least 128, and
  -- the token budget is at least the block size and at most the model length times the number of
  -- sequences.
  pub build_config-Limits :
      (raw : Option (Dict (Node Float))) (environ : Dict Str) (cli : Option (List Str))
      (config : Config Float) (b n t l : ℤ)
      → build_config R raw environ cli ≡ ok config
      → Set (codes "scheduler") (codes "block_size") (int b) config
      → Set (codes "scheduler") (codes "max_num_seqs") (int n) config
      → Set (codes "scheduler") (codes "max_num_batched_tokens") (int t) config
      → Set (codes "model") (codes "max_model_len") (int l) config
      → (b' n' t' l' : ℕ) × (b ≡ pos b')
        × (n ≡ pos n')
        × (t ≡ pos t')
        × (l ≡ pos l')
        × (is_in_numbers block_sizes b' ≡ true)
        × (1 ≤ n')
        × (128 ≤ l')
        × (b' ≤ t')
        × (t' ≤ l' * n')
  build_config-Limits raw environ cli config b n t l h hb hn ht hl =
      let (layers, read, applied, valid) = build_config_inv R raw environ cli h in
      let scheduler : Section Float = valid.scheduler in
      let model : Section Float = valid.model in
      let kn = Set-attr _ _ (int n) config scheduler hn valid.scheduler_at in
      let kt = Set-attr _ _ (int t) config scheduler ht valid.scheduler_at in
      let kl = Set-attr _ _ (int l) config model hl valid.model_at in
      let limits =
        scheduler_limits scheduler b n t
          (Set-attr _ _ (int b) config scheduler hb valid.scheduler_at) kn kt
          valid.scheduler_valid in
      let len : int_lt l (pos 128) ≡ false = model_limit model l kl valid.model_valid in
      let held : int_lt (int_mul l n) t ≡ false =
        held_limit model scheduler n t l kt kl kn valid.limits_valid in
      in_naturals b n t l limits len held
