-- ===== src/Prelude/Integers.antt =====
-- Python's `int`: the integers over the native numbers, their order and product, `str` and `int`.
use Prim.Native.Nat.{ℕ, zero, suc, ◌+◌, ◌-◌, ◌*◌}
use mathlib.Core.Bool.{Bool, true, false, ◌&&◌}
use mathlib.Core.Option.{Option, none, some}
use mathlib.Core.List.{[], ◌∷◌}
use llm_serve.Prelude.Tests.{◌==◌, ltb, leb, if◌then◌else◌}
use llm_serve.Prelude.Text.{Str, show}

-- `negsuc n` is -1 - n.
pub data ℤ : Type 0 where
  pos negsuc : ℕ → ℤ

abbrev pub int_lt : ℤ → ℤ → Bool
int_lt (pos a) (pos b) = ltb a b
int_lt (pos a) (negsuc b) = false
int_lt (negsuc a) (pos b) = true
int_lt (negsuc a) (negsuc b) = ltb b a

abbrev pub int_eq : ℤ → ℤ → Bool
int_eq (pos a) (pos b) = a == b
int_eq (negsuc a) (negsuc b) = a == b
int_eq (pos a) (negsuc b) = false
int_eq (negsuc a) (pos b) = false

abbrev pub negated : ℕ → ℤ
negated zero = pos zero
negated (suc n) = negsuc n

abbrev pub int_mul : ℤ → ℤ → ℤ
int_mul (pos a) (pos b) = pos (a * b)
int_mul (pos a) (negsuc b) = negated (a * (b + 1))
int_mul (negsuc a) (pos b) = negated ((a + 1) * b)
int_mul (negsuc a) (negsuc b) = pos ((a + 1) * (b + 1))

abbrev pub show_int : ℤ → Str
show_int (pos n) = show n
show_int (negsuc n) = b'-' ∷ show (n + 1)

abbrev pub is_digit : ℕ → Bool
is_digit c = leb b'0' c && leb c b'9'

-- The digits of a numeral; one underscore may stand between two of them.
unfoldable pub digits_from : ℕ → Bool → Str → Option ℕ
digits_from n after_digit [] = if after_digit then some n else none
digits_from n after_digit (c ∷ s) = elim (is_digit c) [
  | true ↦ digits_from (n * 10 + (c - b'0')) true s
  | false ↦ elim (after_digit && c == b'_') [ true ↦ digits_from n false s | false ↦ none ]
]

abbrev signed : (ℕ → ℤ) → Option ℕ → Option ℤ
signed sign none = none
signed sign (some n) = some (sign n)

-- `int(text)`, for a text with no space around it.
unfoldable pub int_of_text : Str → Option ℤ
int_of_text [] = none
int_of_text (c ∷ s) =
    if c == b'-'
    then signed negated (digits_from 0 false s)
    else if c == b'+'
    then signed pos (digits_from 0 false s)
    else signed pos (digits_from 0 false (c ∷ s))
