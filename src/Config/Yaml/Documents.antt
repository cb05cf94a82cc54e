-- ===== src/Config/Yaml/Documents.antt =====
-- llm_serve/config.py: whole files of the fallback YAML reader.
use llm_serve.Prelude.{
  ◌≡◌, refl, ap, ◌∙◌, false, some, List, [], ◌∷◌, ◌++◌, map, All, Str, str_eq_refl, Dict, lookup,
  insert, append_assoc, lookup-insert, insert-insert, Result, ok, err,
}
use llm_serve.Prelude.Results.{◌>>=◌}
use llm_serve.Api.ChatTemplate.{strip, strip_start, strip_end}
use llm_serve.Values.{Value, Runtime}
use llm_serve.Config.Yaml.{
  Node, mapping, Reader, read_line, read_lines, put_in, scalar_of, lines_of, is_line_break, start,
  read_content, uncommented, parse_simple_yaml,
}
use llm_serve.Config.Yaml.Lines.{
  Word, Key, option_line, section_line, read_line-option, read_line-section,
}

-- A file as sections of options, each option with the text of its value.
pub record Block : Type 0 where
  pub section : Str
  pub options : List (Str × Str)

abbrev pub block_lines : Block → List Str
block_lines b = section_line b.section ∷ map option_line b.options

unfoldable pub document_lines : List Block → List Str
document_lines [] = []
document_lines (b ∷ bs) = block_lines b ++ document_lines bs

-- Each line with its end.
unfoldable pub written : List Str → Str
written [] = []
written (l ∷ ls) = l ++ (10 ∷ written ls)

abbrev pub Unbroken : Str → Type 0
Unbroken [] = Unit
Unbroken (c ∷ s) = (is_line_break c ≡ false) × Unbroken s

abbrev pub OptionText : Str × Str → Type 0
OptionText (key, value) = Key key × Word value

abbrev pub BlockText : Block → Type 0
BlockText b = Key b.section × All OptionText b.options

lines_of-line : (l s : Str) → Unbroken l → lines_of (l ++ (10 ∷ s)) ≡ l ∷ lines_of s
unfolding lines_of
lines_of-line [] s h = refl
lines_of-line (c ∷ l) s h = rw (lines_of-line l s h.1) (rw h.0 refl)

lines_of-written : (ls : List Str) → All Unbroken ls → lines_of (written ls) ≡ ls ++ [] ∷ []
unfolding written lines_of
lines_of-written [] h = refl
lines_of-written (l ∷ ls) h =
    lines_of-line l (written ls) h.0 ∙ ap (λ ms. l ∷ ms) (lines_of-written ls h.1)

lookup_same : {A : Type 0} (k : Str) (v : A) (d : Dict A) → lookup k (insert k v d) ≡ some v
lookup_same k v d = lookup-insert k k v d ∙ rw (str_eq_refl k) refl

module _ {Float : Type 0} (R : Runtime Float) where
  -- What the options, and the sections, of a file are read as.
  unfoldable pub options_onto : List (Str × Str) → Dict (Value Float) → Dict (Value Float)
  options_onto [] fields = fields
  options_onto ((key, value) ∷ options) fields =
      options_onto options (insert key (scalar_of R value) fields)

  unfoldable pub document_onto : List Block → Dict (Node Float) → Dict (Node Float)
  unfolding options_onto
  document_onto [] root = root
  document_onto (b ∷ bs) root =
      document_onto bs (insert b.section (mapping (options_onto b.options [])) root)

  bind-assoc_lines :
      (o : Result (Reader Float)) (ls ms : List Str)
      → ((r : Reader Float) → read_lines R (ls ++ ms) r ≡ read_lines R ls r >>= read_lines R ms)
      → o >>= read_lines R (ls ++ ms) ≡ (o >>= read_lines R ls) >>= read_lines R ms
  bind-assoc_lines (ok r) ls ms h = h r
  bind-assoc_lines (err e) ls ms h = refl

  read_lines-append :
      (ls ms : List Str) (r : Reader Float)
      → read_lines R (ls ++ ms) r ≡ read_lines R ls r >>= read_lines R ms
  unfolding read_lines
  read_lines-append [] ms r = refl
  read_lines-append (l ∷ ls) ms r =
      bind-assoc_lines (read_line R l r) ls ms (read_lines-append ls ms)

  abbrev within : Str → Dict (Value Float) → Dict (Node Float) → Reader Float
  within s fields root = record { root = insert s (mapping fields) root; current = some s }

  put_in-within :
      (key s : Str) (v : Value Float) (fields : Dict (Value Float)) (root : Dict (Node Float))
      → put_in key v (within s fields root) (some s) ≡ ok (within s (insert key v fields) root)
  put_in-within key s v fields root =
      rw (lookup_same s (mapping fields) root)
        (rw (insert-insert s (mapping (insert key v fields)) (mapping fields) root) refl)

  read_lines-options :
      (options : List (Str × Str)) (s : Str) (fields : Dict (Value Float))
      (root : Dict (Node Float))
      → All OptionText options
      → read_lines R (map option_line options) (within s fields root)
        ≡ ok (within s (options_onto options fields) root)
  unfolding read_lines options_onto
  read_lines-options [] s fields root h = refl
  read_lines-options ((key, value) ∷ options) s fields root h =
      ap (λ o. o >>= read_lines R (map option_line options))
        (read_line-option R key value (within s fields root) h.0.0 h.0.1
          ∙ put_in-within key s (scalar_of R value) fields root)
      ∙ read_lines-options options s (insert key (scalar_of R value) fields) root h.1

  read_lines-block :
      (b : Block) (rest : List Str) (r : Reader Float)
      → BlockText b
      → read_lines R (block_lines b ++ rest) r
        ≡ read_lines R rest (within b.section (options_onto b.options []) r.root)
  unfolding read_lines
  read_lines-block b rest r h =
      ap (λ o. o >>= read_lines R (map option_line b.options ++ rest))
        (read_line-section R b.section r h.0)
      ∙ read_lines-append (map option_line b.options) rest (within b.section [] r.root)
      ∙ ap (λ o. o >>= read_lines R rest) (read_lines-options b.options b.section [] r.root h.1)

  read_line-empty : (r : Reader Float) → read_line R [] r ≡ ok r
  unfolding read_line read_content uncommented strip strip_start strip_end
  read_line-empty r = refl

  read_lines-document :
      (bs : List Block) (r : Reader Float)
      → All BlockText bs
      → (read_lines R (document_lines bs ++ [] ∷ []) r >>= λ q. ok q.root)
        ≡ ok (document_onto bs r.root)
  unfolding read_lines document_lines document_onto
  read_lines-document [] r h = rw (read_line-empty r) refl
  read_lines-document (b ∷ bs) r h =
      ap (λ ls. read_lines R ls r >>= λ q. ok q.root)
        (append_assoc (block_lines b) (document_lines bs) ([] ∷ []))
      ∙ ap (λ o. o >>= λ q. ok q.root) (read_lines-block b (document_lines bs ++ [] ∷ []) r h.0)
      ∙ read_lines-document bs (within b.section (options_onto b.options []) r.root) h.1

  -- A file of sections, each a line with its name and indented lines with an option and the text
  -- of its value, is read back by `_parse_simple_yaml` as these sections in order, each with the
  -- scalars of its texts; names and texts are not empty, have no space around them, no comment
  -- mark and no line break, and names have no colon.
  pub parse_simple_yaml-written :
      (bs : List Block)
      → All BlockText bs
      → All Unbroken (document_lines bs)
      → parse_simple_yaml R (written (document_lines bs)) ≡ ok (document_onto bs [])
  unfolding parse_simple_yaml
  parse_simple_yaml-written bs h k =
      ap (λ ls. read_lines R ls (start R) >>= λ r. ok r.root)
        (lines_of-written (document_lines bs) k)
      ∙ read_lines-document bs (start R) h
