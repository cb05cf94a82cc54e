-- ===== src/Api/Sse/Split.antt =====
-- The splitting of text in llm_serve/api/sse.py, at newlines and at blank lines.
use llm_serve.Prelude.{
  ℕ, ◌≡◌, ◌≢◌, refl, ap, ◌∙◌, Bool, true, false, List, [], ◌∷◌, ◌++◌, Str, All, arith,
}
use llm_serve.Api.Sse.{newline, push, split_lines, join_lines}

abbrev pub IsLine : Str → Type 0
IsLine l = All (λ c. c ≢ newline) l

-- A text of lines is not the empty list of them.
abbrev pub some_lines : List Str → Bool
some_lines [] = false
some_lines (l ∷ ls) = true

split_line : (l : Str) → IsLine l → split_lines l ≡ l ∷ []
unfolding split_lines
split_line [] h = refl
split_line (c ∷ l) h = ground (arith, split_line l h.1, h.0)

split_line_more : (l s : Str) → IsLine l → split_lines (l ++ newline ∷ s) ≡ l ∷ split_lines s
unfolding split_lines
split_line_more [] s h = refl
split_line_more (c ∷ l) s h = ground (arith, split_line_more l s h.1, h.0)

-- Joined lines are split into the same lines.
pub split_lines-join_lines :
    (l : Str) (ls : List Str) → All IsLine (l ∷ ls) → split_lines (join_lines (l ∷ ls)) ≡ l ∷ ls
unfolding join_lines
split_lines-join_lines l [] h = split_line l h.0
split_lines-join_lines l (m ∷ ls) h =
    split_line_more l (join_lines (m ∷ ls)) h.0 ∙ ap (◌∷◌ l) (split_lines-join_lines m ls h.1)

-- The pieces of a text are lines, at least one.
push-AllIsLine :
    (c : ℕ) (ls : List Str) → (c ≡ newline → ⊥) → All IsLine ls → All IsLine (push c ls)
push-AllIsLine c [] h k = ((h, tt), tt)
push-AllIsLine c (l ∷ ls) h k = ((h, k.0), k.1)

pub split_lines-IsLine :
    (s : Str) → All IsLine (split_lines s) × (some_lines (split_lines s) ≡ true)
unfolding split_lines
split_lines-IsLine [] = ((tt, tt), refl)
split_lines-IsLine (c ∷ s) =
    let rest = split_lines-IsLine s in ground (arith, rest, push-AllIsLine c (split_lines s))

join_push :
    (c : ℕ) (ls : List Str) → some_lines ls ≡ true → join_lines (push c ls) ≡ c ∷ join_lines ls
unfolding join_lines
join_push c [] h = absurd (ground arith)
join_push c (l ∷ []) h = refl
join_push c (l ∷ m ∷ ls) h = refl

-- The lines of a text make the text.
pub join_lines-split_lines : (s : Str) → join_lines (split_lines s) ≡ s
unfolding split_lines join_lines
join_lines-split_lines [] = refl
join_lines-split_lines (c ∷ s) =
    ground (arith, join_lines-split_lines s, split_lines-IsLine s, join_push c (split_lines s))
