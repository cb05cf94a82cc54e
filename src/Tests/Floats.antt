-- ===== src/Tests/Floats.antt =====
-- Floats for the concrete runs: decimals with three places.
use llm_serve.Prelude.{
  ℕ, zero, suc, ◌+◌, ◌*◌, ◌/◌, Option, some, [], ◌∷◌, ◌++◌, Str, codes, ℤ, pos, negsuc, int_lt,
  int_eq, show_int, int_of_text, take,
}
use llm_serve.Values.{Runtime}
use llm_serve.Config.Yaml.{partition}

abbrev times : ℕ → ℤ → ℤ
times k (pos n) = pos (k * n)
times k (negsuc n) = negsuc (k * n + k)

abbrev opposite : ℤ → ℤ
opposite (pos zero) = pos zero
opposite (pos (suc n)) = negsuc n
opposite (negsuc n) = pos (suc n)

abbrev unit_of : ℕ → ℕ
unit_of zero = 1000
unit_of (suc zero) = 100
unit_of (suc (suc zero)) = 10
unit_of _ = 1

abbrev whole_part : ℤ → Option ℤ
whole_part (pos n) = some (pos (n / 1000))
whole_part (negsuc n) = some (opposite (pos ((n + 1) / 1000)))

abbrev joined : Str × Str → Str
joined (a, b) = a ++ take 3 (b ++ codes "000")

unfoldable pub decimals : Runtime ℤ
unfolding partition int_of_text
decimals = record {
  literal = λ m k. pos (m * unit_of k);
  negative = opposite;
  float_lt = int_lt;
  float_eq = int_eq;
  float_lt_int = λ x n. int_lt x (times 1000 n);
  int_lt_float = λ n x. int_lt (times 1000 n) x;
  float_eq_int = λ x n. int_eq x (times 1000 n);
  float_of_text = λ s. int_of_text (joined (partition b'.' s));
  float_of_int = λ n. some (times 1000 n);
  int_of_float = whole_part;
  show_float = show_int;
  repr_text = λ s. b'\'' ∷ s ++ b'\'' ∷ [];
}
