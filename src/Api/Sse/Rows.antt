-- ===== src/Api/Sse/Rows.antt =====
-- Lines with some character in them, in a text that llm_serve/api/sse.py splits at blank lines.
use llm_serve.Prelude.{
  ◌≡◌, refl, ap, ◌∙◌, sym, Bool, true, false, not, ◌&&◌, List, [], ◌∷◌, ◌++◌, Str, All, ◌==◌,
  if◌then◌else◌, arith,
}
use llm_serve.Api.Sse.{newline, split_from, join_lines}
use llm_serve.Api.Sse.Split.{IsLine}

-- No two newlines in a row, and none at the end; `p` says that one stands before the text.
pub clean : Bool → Str → Bool
clean p [] = not p
clean p (c ∷ s) = let rest = clean (c == newline) s in if c == newline && p then false else rest

abbrev pub after_newline : Bool → Str → Str
after_newline true b = newline ∷ b
after_newline false b = b

pub split_from-clean :
    (p : Bool) (b s : Str)
    → clean p b ≡ true
    → split_from p (b ++ newline ∷ newline ∷ s) ≡ after_newline p b ∷ split_from false s
unfolding split_from clean
split_from-clean false [] s h = refl
split_from-clean true [] s h = absurd (ground arith)
split_from-clean false (c ∷ b) s h = ground (arith, split_from-clean (c == newline) b s)
split_from-clean true (c ∷ b) s h = ground (arith, split_from-clean (c == newline) b s)

-- A line with some character.
abbrev pub IsRow : Str → Type 0
IsRow [] = ⊥
IsRow (c ∷ l) = IsLine (c ∷ l)

clean_line : (l t : Str) → IsLine l → clean false (l ++ t) ≡ clean false t
unfolding clean
clean_line [] t h = refl
clean_line (c ∷ l) t h = ground (arith, clean_line l t h.1, h.0)

clean_row : (p : Bool) (l t : Str) → IsRow l → clean p (l ++ t) ≡ clean false t
unfolding clean
clean_row p [] t h = absurd h
clean_row p (c ∷ l) t h = ground (arith, clean_line l t h.1, h.0)

append_nil : (l : Str) → l ++ [] ≡ l
append_nil [] = refl
append_nil (c ∷ l) = ap (◌∷◌ c) (append_nil l)

pub clean-join_lines :
    (p : Bool) (l : Str) (ls : List Str) → All IsRow (l ∷ ls) → clean p (join_lines (l ∷ ls)) ≡ true
unfolding clean join_lines
clean-join_lines p l [] h = ap (clean p) (sym (append_nil l)) ∙ clean_row p l [] h.0
clean-join_lines p l (m ∷ ls) h =
    clean_row p l (newline ∷ join_lines (m ∷ ls)) h.0 ∙ clean-join_lines true m ls h.1
