-- ===== src/Types/Bounds.antt =====
-- llm_serve/types.py: what the checks of the decoding parameters leave true of them.
use mathlib.Core.Path.{subst}
use llm_serve.Prelude.{
  ℕ, zero, suc, ◌≡◌, ◌⊎◌, inl, inr, ◌≤◌, true, not, ◌||◌, leb, leb→le, List, [], ◌∷◌, All, codes,
  Dict, lookup, length, ℤ, pos, negsuc, int_lt, int_eq, validation_error, ok, arith,
}
use llm_serve.Prelude.Results.{ok_inj, bind-ok_inv, ensure, ensure_inv}
use llm_serve.Values.{Value, null, bool, int, float, str, list, dict, Runtime, is_str}
use llm_serve.Values.Order.{number_le, number_of, real, whole}
use llm_serve.Types.Sampling.{
  zero_number, SamplingParams, require_int, require_number, in_range, all_text, check_params, stops,
  params_of, kwargs_of, from_dict,
}

-- Decoding parameters within their bounds.
pub record ValidParams {Float : Type 0} (p : SamplingParams Float) : Type 0 where
  pub tokens : (k : ℕ) × (p.max_tokens ≡ int (pos k)) × (1 ≤ k) × (k ≤ 32768)
  pub top_k : (p.top_k ≡ int (negsuc 0)) ⊎ ((k : ℕ) × (p.top_k ≡ int (pos k)) × (1 ≤ k))
  pub choices : (k : ℕ) × (p.n ≡ int (pos k)) × (1 ≤ k)
  pub few_stops : length p.stop ≤ 8
  pub text_stops : All (λ v. is_str v ≡ true) p.stop

module _ {Float : Type 0} where
  pub require_int_inv : (v : Value Float) {n : ℤ} → require_int v ≡ ok n → v ≡ int n
  require_int_inv (int m) h = cc
  require_int_inv null h = cc
  require_int_inv (bool b) h = cc
  require_int_inv (float x) h = cc
  require_int_inv (str s) h = cc
  require_int_inv (list vs) h = cc
  require_int_inv (dict fs) h = cc

  all_text_inv : (vs : List (Value Float)) → all_text vs ≡ true → All (λ v. is_str v ≡ true) vs
  all_text_inv [] h = tt
  all_text_inv (v ∷ vs) h = (ground (arith, h), all_text_inv vs (ground (arith, h)))

module _ {Float : Type 0} where
  bounded :
      (v : Value Float) (n : ℤ)
      → v ≡ int n
      → not (int_lt n (pos 1)) ≡ true
      → not (int_lt (pos 32768) n) ≡ true
      → (k : ℕ) × (v ≡ int (pos k)) × (1 ≤ k) × (k ≤ 32768)
  bounded v (pos k) e h l = (k, e, ground (arith, h), ground (arith, l))
  bounded v (negsuc k) e h l = absurd (ground (arith, h))

  at_least_one :
      (v : Value Float) (n : ℤ)
      → v ≡ int n
      → not (int_lt n (pos 1)) ≡ true
      → (k : ℕ) × (v ≡ int (pos k)) × (1 ≤ k)
  at_least_one v (pos k) e h = (k, e, ground (arith, h))
  at_least_one v (negsuc k) e h = absurd (ground (arith, h))

  off_or_positive :
      (v : Value Float) (n : ℤ)
      → v ≡ int n
      → not (int_eq n (pos 0) || int_lt n (negsuc 0)) ≡ true
      → (v ≡ int (negsuc 0)) ⊎ ((k : ℕ) × (v ≡ int (pos k)) × (1 ≤ k))
  off_or_positive v (pos k) e h = inr (k, e, ground (arith, h))
  off_or_positive v (negsuc zero) e h = inl e
  off_or_positive v (negsuc (suc k)) e h = absurd (ground (arith, h))

module _ {Float : Type 0} (R : Runtime Float) where
  pub check_params-Valid :
      (p q : SamplingParams Float) → check_params R p ≡ ok q → ValidParams p × (p ≡ q)
  unfolding check_params
  check_params-Valid p q h =
      let (tokens, t_is, h1) = bind-ok_inv (require_int p.max_tokens) _ h in
      let (u1, low, h2) =
        bind-ok_inv (ensure (not (int_lt tokens (pos 1))) validation_error) _ h1 in
      let (u2, high, h3) =
        bind-ok_inv (ensure (not (int_lt (pos 32768) tokens)) validation_error) _ h2 in
      let (u3, temp, h4) =
        bind-ok_inv (in_range R (R.literal 0 1) (R.literal 20 1) p.temperature) _ h3 in
      let (u4, top, h5) = bind-ok_inv (in_range R (R.literal 0 1) (R.literal 10 1) p.top_p) _ h4 in
      let (u5, not_zero, h6) =
        bind-ok_inv (ensure (not (zero_number R (number_of p.top_p))) validation_error) _ h5 in
      let (top_k, k_is, h7) = bind-ok_inv (require_int p.top_k) _ h6 in
      let (u6, k_ok, h8) =
        bind-ok_inv
          (ensure (not (int_eq top_k (pos 0) || int_lt top_k (negsuc 0))) validation_error) _ h7 in
      let (u7, presence, h9) =
        bind-ok_inv (in_range R (R.negative (R.literal 20 1)) (R.literal 20 1) p.presence_penalty) _
          h8 in
      let (u8, frequency, h10) =
        bind-ok_inv (in_range R (R.negative (R.literal 20 1)) (R.literal 20 1) p.frequency_penalty)
          _ h9 in
      let (penalty, is_number, h11) = bind-ok_inv (require_number R p.repetition_penalty) _ h10 in
      let (u9, above, h12) =
        bind-ok_inv (ensure (not (number_le R (real penalty) (whole (pos 0)))) validation_error) _
          h11 in
      let (n, n_is, h13) = bind-ok_inv (require_int p.n) _ h12 in
      let (u10, n_ok, h14) = bind-ok_inv (ensure (not (int_lt n (pos 1))) validation_error) _ h13 in
      let (u11, few, h15) = bind-ok_inv (ensure (leb (length p.stop) 8) validation_error) _ h14 in
      let (u12, texts, h16) = bind-ok_inv (ensure (all_text p.stop) validation_error) _ h15 in
      (
        record {
          tokens =
              bounded p.max_tokens tokens (require_int_inv p.max_tokens t_is)
                (ensure_inv (not (int_lt tokens (pos 1))) validation_error low)
                (ensure_inv (not (int_lt (pos 32768) tokens)) validation_error high);
          top_k = off_or_positive p.top_k top_k (require_int_inv p.top_k k_is) (
              ensure_inv (not (int_eq top_k (pos 0) || int_lt top_k (negsuc 0))) validation_error
                k_ok);
          choices =
              at_least_one p.n n (require_int_inv p.n n_is)
                (ensure_inv (not (int_lt n (pos 1))) validation_error n_ok);
          few_stops =
              leb→le (length p.stop) 8 (ensure_inv (leb (length p.stop) 8) validation_error few);
          text_stops = all_text_inv p.stop (ensure_inv (all_text p.stop) validation_error texts);
        },
        ok_inj h16,
      )

  pub from_dict-Valid :
      (payload : Dict (Value Float)) (p : SamplingParams Float)
      → from_dict R payload ≡ ok p
      → ValidParams p
  unfolding from_dict
  from_dict-Valid payload p h =
      let (stop, found, made) =
        bind-ok_inv (stops (lookup (codes "stop") payload))
          (λ stop. check_params R (params_of R (kwargs_of payload) stop)) h in
      let (valid, same) = check_params-Valid (params_of R (kwargs_of payload) stop) p made in
      subst ValidParams same valid
