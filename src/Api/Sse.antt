-- ===== src/Api/Sse.antt =====
-- llm_serve/api/sse.py: the framing of server-sent events, and its parser. The JSON of a payload is
-- made by a library, so a payload is the text that is framed.
use llm_serve.Prelude.{
  ℕ, ◌+◌, ◌≤◌, Bool, true, false, not, ◌&&◌, ◌||◌, Option, none, some, List, [], ◌∷◌, ◌++◌, map,
  drop, Str, codes, show, str_eq, leb, ◌==◌, if◌then◌else◌,
}
pub mod Split
pub mod Rows
pub mod Frames
pub mod Streams

abbrev pub newline : ℕ
newline = 10

abbrev pub done : Str
done = codes "[DONE]"

abbrev pub data_prefix : Str
data_prefix = codes "data: "

-- A character in front of the first piece.
abbrev pub push : ℕ → List Str → List Str
push c [] = (c ∷ []) ∷ []
push c (p ∷ ps) = (c ∷ p) ∷ ps

-- `s.split("\n")`
unfoldable pub split_lines : Str → List Str
split_lines [] = [] ∷ []
split_lines (c ∷ s) = let rest = split_lines s in if c == newline then [] ∷ rest else push c rest

-- `s.split("\n\n")`, where `pending` says that a single newline was read before `s`.
unfoldable pub split_from : Bool → Str → List Str
split_from pending [] = (if pending then newline ∷ [] else []) ∷ []
split_from pending (c ∷ s) =
    let rest = split_from (c == newline && not pending) s in
    if c == newline
    then (if pending then [] ∷ rest else rest)
    else (if pending then push newline (push c rest) else push c rest)

unfoldable pub split_blocks : Str → List Str
split_blocks s = split_from false s

-- `"\n".join(lines)`
unfoldable pub join_lines : List Str → Str
join_lines [] = []
join_lines (l ∷ []) = l
join_lines (l ∷ m ∷ ls) = l ++ newline ∷ join_lines (m ∷ ls)

abbrev event_lines : Option Str → List Str
event_lines none = []
event_lines (some e) = (codes "event: " ++ e) ∷ []

abbrev retry_lines : Option ℕ → List Str
retry_lines none = []
retry_lines (some ms) = (codes "retry: " ++ show ms) ∷ []

abbrev pub header_lines : Option Str → Option ℕ → List Str
header_lines event retry_ms = event_lines event ++ retry_lines retry_ms

abbrev pub data_line : Str → Str
data_line l = data_prefix ++ l

unfoldable pub format_sse : Str → Option Str → Option ℕ → Str
format_sse text event retry_ms =
    join_lines (header_lines event retry_ms ++ map data_line (split_lines text))
    ++ newline ∷ newline ∷ []

unfoldable pub done_event : Str
unfolding format_sse
done_event = format_sse done none none

unfoldable pub comment : Str → Str
comment text = codes ": " ++ text ++ newline ∷ newline ∷ []

-- `str.isspace` of one character.
unfoldable pub is_space : ℕ → Bool
is_space c =
    (leb 9 c && leb c 13)
    || (leb 28 c && leb c 32)
    || c == 133
    || c == 160
    || c == 5760
    || (leb 8192 c && leb c 8202)
    || c == 8232
    || c == 8233
    || c == 8239
    || c == 8287
    || c == 12288

-- `not s.strip()`
unfoldable pub is_blank : Str → Bool
is_blank [] = true
is_blank (c ∷ s) = is_space c && is_blank s

unfoldable pub starts_with : Str → Str → Bool
starts_with [] s = true
starts_with (c ∷ p) [] = false
starts_with (c ∷ p) (d ∷ s) = c == d && starts_with p s

-- `s.lstrip(" ")`
unfoldable pub strip_left : Str → Str
strip_left [] = []
strip_left (c ∷ s) = let rest = strip_left s in if c == 32 then rest else c ∷ s

-- The data lines of a block, without their prefix.
unfoldable pub data_lines : List Str → List Str
data_lines [] = []
data_lines (l ∷ ls) =
    let rest = data_lines ls in
    if starts_with (codes "data:") l then strip_left (drop 5 l) ∷ rest else rest

-- The payloads of one block.
abbrev pub payload_of : List Str → List Str
payload_of [] = []
payload_of (l ∷ ls) = join_lines (l ∷ ls) ∷ []

unfoldable pub parse_blocks : List Str → List Str
parse_blocks [] = []
parse_blocks (b ∷ bs) =
    let rest = parse_blocks bs in
    if is_blank b then rest else payload_of (data_lines (split_lines b)) ++ rest

unfoldable pub parse_sse_stream : Str → List Str
parse_sse_stream raw = parse_blocks (split_blocks raw)

-- The texts that `parse_sse_json` parses.
unfoldable pub json_texts : List Str → List Str
json_texts [] = []
json_texts (p ∷ ps) = let rest = json_texts ps in if str_eq p done then rest else p ∷ rest

-- The stream of `iter_sse`, over the texts of the payloads.
unfoldable pub iter_sse : List Str → Bool → Str
iter_sse [] send_done = if send_done then done_event else []
iter_sse (p ∷ ps) send_done = format_sse p none none ++ iter_sse ps send_done
