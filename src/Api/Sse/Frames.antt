-- ===== src/Api/Sse/Frames.antt =====
-- One frame of llm_serve/api/sse.py, as `format_sse` writes it and as the parser reads it.
use llm_serve.Prelude.{
  ℕ, zero, suc, ◌+◌, ◌/◌, ◌%◌, ◌≡◌, refl, ap, ◌∙◌, Bool, true, false, not, ◌&&◌, Option, none, some,
  List, [], ◌∷◌, ◌++◌, map, append_assoc, Str, codes, show, show_from, All, ◌==◌, arith,
}
use llm_serve.Api.Sse.{
  newline, split_lines, split_from, split_blocks, join_lines, header_lines, data_line, format_sse,
  is_space, is_blank, starts_with, strip_left, data_lines, payload_of, parse_blocks,
  parse_sse_stream,
}
use llm_serve.Api.Sse.Rows.{IsRow, split_from-clean, clean-join_lines}
use llm_serve.Api.Sse.Split.{
  IsLine, some_lines, split_lines-join_lines, split_lines-IsLine, join_lines-split_lines,
}

-- The rows of a frame.
abbrev pub rows : Str → Option Str → Option ℕ → List Str
rows text event retry_ms = header_lines event retry_ms ++ map data_line (split_lines text)

show_from-IsLine : (fuel n : ℕ) (acc : Str) → IsLine acc → IsLine (show_from fuel n acc)
unfolding show_from
show_from-IsLine zero n acc h = h
show_from-IsLine (suc fuel) n acc h =
    ground (arith, show_from-IsLine fuel (n / 10) ((48 + n % 10) ∷ acc), h)

show-IsLine : (n : ℕ) → IsLine (show n)
unfolding show
show-IsLine n = show_from-IsLine (suc n) n [] tt

-- The header has no newline in it.
abbrev pub IsHeader : Option Str → Type 0
IsHeader none = Unit
IsHeader (some e) = IsLine e

abbrev is_line : Str → Bool
is_line [] = true
is_line (c ∷ l) = not (c == newline) && is_line l

prefixed-IsLine : (p l : Str) → is_line p ≡ true → IsLine l → IsLine (p ++ l)
prefixed-IsLine [] l h k = k
prefixed-IsLine (c ∷ p) l h k = ((λ e. absurd (ground arith)), prefixed-IsLine p l (ground arith) k)

prefixed-IsRow : (c : ℕ) (p l : Str) → is_line (c ∷ p) ≡ true → IsLine l → IsRow ((c ∷ p) ++ l)
prefixed-IsRow c p l h k = prefixed-IsLine (c ∷ p) l h k

data_rows-IsRow : (ls : List Str) → All IsLine ls → All IsRow (map data_line ls)
data_rows-IsRow [] h = tt
data_rows-IsRow (l ∷ ls) h = (prefixed-IsRow 100 (codes "ata: ") l refl h.0, data_rows-IsRow ls h.1)

event-IsRow : (e : Str) → IsLine e → IsRow (codes "event: " ++ e)
event-IsRow e h = prefixed-IsRow 101 (codes "vent: ") e refl h

retry-IsRow : (ms : ℕ) → IsRow (codes "retry: " ++ show ms)
retry-IsRow ms = prefixed-IsRow 114 (codes "etry: ") (show ms) refl (show-IsLine ms)

-- Every line of a frame is a row, and there is one.
pub rows-IsRow :
    (text : Str) (event : Option Str) (retry_ms : Option ℕ)
    → IsHeader event
    → All IsRow (rows text event retry_ms)
rows-IsRow text none none h = data_rows-IsRow (split_lines text) (split_lines-IsLine text).0
rows-IsRow text none (some ms) h =
    (retry-IsRow ms, data_rows-IsRow (split_lines text) (split_lines-IsLine text).0)
rows-IsRow text (some e) none h =
    (event-IsRow e h, data_rows-IsRow (split_lines text) (split_lines-IsLine text).0)
rows-IsRow text (some e) (some ms) h = (
  event-IsRow e h,
  (retry-IsRow ms, data_rows-IsRow (split_lines text) (split_lines-IsLine text).0),
)

rows-IsLine : (ls : List Str) → All IsRow ls → All IsLine ls
rows-IsLine [] h = tt
rows-IsLine ([] ∷ ls) h = absurd h.0
rows-IsLine ((c ∷ l) ∷ ls) h = (h.0, rows-IsLine ls h.1)

-- Joining rows and splitting the stream again.
split_rows :
    (ls : List Str) (s : Str)
    → some_lines ls ≡ true
    → All IsRow ls
    → (split_from false (join_lines ls ++ newline ∷ newline ∷ s)
        ≡ join_lines ls ∷ split_from false s)
      × (split_lines (join_lines ls) ≡ ls)
split_rows [] s e h = absurd (cc e)
split_rows (l ∷ ls) s e h = (
  split_from-clean false (join_lines (l ∷ ls)) s (clean-join_lines false l ls h),
  split_lines-join_lines l ls (rows-IsLine (l ∷ ls) h),
)

-- A line that the parser's `lstrip` leaves as it is.
abbrev pub IsKept : Str → Type 0
IsKept l = strip_left l ≡ l

data_lines-data : (ls : List Str) → All IsKept ls → data_lines (map data_line ls) ≡ ls
unfolding data_lines starts_with strip_left
data_lines-data [] h = refl
data_lines-data (l ∷ ls) h =
    ap (λ x. x ∷ data_lines (map data_line ls)) h.0 ∙ ap (◌∷◌ l) (data_lines-data ls h.1)

data_lines-rows :
    (text : Str) (event : Option Str) (retry_ms : Option ℕ)
    → All IsKept (split_lines text)
    → data_lines (rows text event retry_ms) ≡ split_lines text
unfolding data_lines starts_with
data_lines-rows text none none h = data_lines-data (split_lines text) h
data_lines-rows text none (some ms) h = data_lines-data (split_lines text) h
data_lines-rows text (some e) none h = data_lines-data (split_lines text) h
data_lines-rows text (some e) (some ms) h = data_lines-data (split_lines text) h

some_rows :
    (text : Str) (event : Option Str) (retry_ms : Option ℕ)
    → some_lines (rows text event retry_ms) ≡ true
some_rows text none none = some_data (split_lines text) (split_lines-IsLine text).1
  where
    some_data : (ls : List Str) → some_lines ls ≡ true → some_lines (map data_line ls) ≡ true
    some_data [] h = h
    some_data (l ∷ ls) h = refl
some_rows text none (some ms) = refl
some_rows text (some e) none = refl
some_rows text (some e) (some ms) = refl

not_blank :
    (c : ℕ) (l : Str) (ls : List Str)
    → is_space c ≡ false
    → is_blank (join_lines ((c ∷ l) ∷ ls)) ≡ false
unfolding is_blank join_lines
not_blank c l [] h = rw h refl
not_blank c l (m ∷ ls) h = rw h refl

rows_not_blank :
    (text : Str) (event : Option Str) (retry_ms : Option ℕ)
    → is_blank (join_lines (rows text event retry_ms)) ≡ false
unfolding is_space
rows_not_blank text none none = data_not_blank (split_lines text) (split_lines-IsLine text).1
  where
    data_not_blank :
        (ls : List Str) → some_lines ls ≡ true → is_blank (join_lines (map data_line ls)) ≡ false
    data_not_blank [] h = absurd (cc h)
    data_not_blank (l ∷ ls) h = not_blank 100 _ (map data_line ls) refl
rows_not_blank text none (some ms) = not_blank 114 _ _ refl
rows_not_blank text (some e) none = not_blank 101 _ _ refl
rows_not_blank text (some e) (some ms) = not_blank 101 _ _ refl

payload_of-lines : (ls : List Str) → some_lines ls ≡ true → payload_of ls ≡ join_lines ls ∷ []
payload_of-lines [] h = absurd (cc h)
payload_of-lines (l ∷ ls) h = refl

-- The parser takes one frame off the stream and finds its payload.
pub parse_frame :
    (text : Str) (event : Option Str) (retry_ms : Option ℕ) (s : Str)
    → IsHeader event
    → All IsKept (split_lines text)
    → parse_sse_stream (format_sse text event retry_ms ++ s) ≡ text ∷ parse_sse_stream s
unfolding parse_sse_stream format_sse split_blocks parse_blocks
parse_frame text event retry_ms s h k =
    let ls = rows text event retry_ms in
    let (blocks, lines) =
      split_rows ls s (some_rows text event retry_ms) (rows-IsRow text event retry_ms h) in
    let assoc : format_sse text event retry_ms ++ s ≡ join_lines ls ++ newline ∷ newline ∷ s =
      append_assoc (join_lines ls) (newline ∷ newline ∷ []) s in
    let found : payload_of (data_lines (split_lines (join_lines ls))) ≡ text ∷ [] =
      ap (λ x. payload_of (data_lines x)) lines
      ∙ ap payload_of (data_lines-rows text event retry_ms k)
      ∙ payload_of-lines (split_lines text) (split_lines-IsLine text).1
      ∙ ap (λ x. x ∷ []) (join_lines-split_lines text) in
    ap (λ x. parse_blocks (split_from false x)) assoc
    ∙ ap parse_blocks blocks
    ∙ rw (rows_not_blank text event retry_ms)
        (ap (λ x. x ++ parse_blocks (split_from false s)) found)
