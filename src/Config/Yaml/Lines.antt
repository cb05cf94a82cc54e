-- ===== src/Config/Yaml/Lines.antt =====
-- llm_serve/config.py: single lines of a file, as the fallback YAML reader takes them.
use llm_serve.Prelude.{
  ℕ, ◌≡◌, refl, sym, ap, ◌∙◌, Bool, true, false, not, [], ◌∷◌, ◌++◌, append_assoc, Str, codes, ok,
  arith,
}
use llm_serve.Api.Sse.{is_space}
use llm_serve.Api.ChatTemplate.{strip, strip_start, strip_end, empty}
use llm_serve.Values.{Runtime}
use llm_serve.Config.Targets.{Lacks, Lacks-append}
use llm_serve.Config.Yaml.{
  Reader, uncommented, partition, read_content, read_line, put_in, put_top, scalar_of, indented,
}

abbrev starts_plain : Str → Bool
starts_plain [] = false
starts_plain (c ∷ s) = not (is_space c)

-- A text that is not empty, starts and ends with no space, and holds no comment mark.
pub record Word (s : Str) : Type 0 where
  pub starts : starts_plain s ≡ true
  pub ends : strip_end s ≡ s
  pub no_comment : Lacks b'#' s

pub record Key (s : Str) : Type 0 where
  pub word : Word s
  pub no_colon : Lacks b':' s

strip_start_plain : (s : Str) → starts_plain s ≡ true → strip_start s ≡ s
unfolding strip_start
strip_start_plain [] h = refl
strip_start_plain (c ∷ s) h = ground (arith, h)

empty-append : (s t : Str) → empty t ≡ false → empty (s ++ t) ≡ false
empty-append [] t h = h
empty-append (c ∷ s) t h = refl

Word-empty : (s : Str) → Word s → empty s ≡ false
Word-empty [] w = absurd (ground (arith, w.starts))
Word-empty (c ∷ s) w = refl

starts_plain-append : (s t : Str) → starts_plain s ≡ true → starts_plain (s ++ t) ≡ true
starts_plain-append [] t h = absurd (ground (arith, h))
starts_plain-append (c ∷ s) t h = h

strip_end-append : (s t : Str) → empty (strip_end t) ≡ false → strip_end (s ++ t) ≡ s ++ strip_end t
unfolding strip_end
strip_end-append [] t h = refl
strip_end-append (c ∷ s) t h =
    rw (strip_end-append s t h) (ground (arith, empty-append s (strip_end t) h))

uncommented_same : (s : Str) → Lacks b'#' s → uncommented s ≡ s
unfolding uncommented
uncommented_same [] h = refl
uncommented_same (c ∷ s) h = rw (uncommented_same s h.1) (ground (arith, h.0))

partition-append : (mark : ℕ) (s t : Str) → Lacks mark s → partition mark (s ++ mark ∷ t) ≡ (s, t)
unfolding partition
partition-append mark [] t h = ground arith
partition-append mark (c ∷ s) t h = rw (partition-append mark s t h.1) (ground (arith, h.0))

-- A line of a section, and the line that opens one.
abbrev pub option_line : Str × Str → Str
option_line (key, value) = codes "  " ++ (key ++ (codes ": " ++ value))

abbrev pub section_line : Str → Str
section_line s = s ++ codes ":"

strip_end_word : (s t : Str) → Word t → strip_end (s ++ t) ≡ s ++ t
strip_end_word s t w =
    strip_end-append s t (ap empty w.ends ∙ Word-empty t w) ∙ ap (λ u. s ++ u) w.ends

pub strip_word : (s : Str) → Word s → strip s ≡ s
unfolding strip
strip_word s w = ap strip_end (strip_start_plain s w.starts) ∙ w.ends

strip_spaced : (s : Str) → Word s → strip (codes " " ++ s) ≡ s
unfolding strip strip_start is_space
strip_spaced s w = strip_word s w

-- A line as it is after its comment and the spaces around it have gone.
strip-option :
    (key value : Str)
    → Key key
    → Word value
    → strip (option_line (key, value)) ≡ key ++ (codes ": " ++ value)
unfolding strip strip_start is_space
strip-option key value k v =
    ap strip_end (
      strip_start_plain (key ++ (codes ": " ++ value))
        (starts_plain-append key (codes ": " ++ value) k.word.starts))
    ∙ ap strip_end (sym (append_assoc key (codes ": ") value))
    ∙ strip_end_word (key ++ codes ": ") value v
    ∙ append_assoc key (codes ": ") value

strip_end-option :
    (key value : Str) → Word value → strip_end (option_line (key, value)) ≡ option_line (key, value)
strip_end-option key value v =
    ap (λ s. strip_end (codes "  " ++ s)) (sym (append_assoc key (codes ": ") value))
    ∙ strip_end_word (codes "  " ++ (key ++ codes ": ")) value v
    ∙ ap (λ s. codes "  " ++ s) (append_assoc key (codes ": ") value)

uncommented-option :
    (key value : Str)
    → Key key
    → Word value
    → uncommented (option_line (key, value)) ≡ option_line (key, value)
uncommented-option key value k v = uncommented_same (option_line (key, value)) (
  refl,
  (
    refl,
    Lacks-append b'#' key (codes ": " ++ value) k.word.no_comment (refl, (refl, v.no_comment)),
  ),
)

colon-Word : Word (codes ":")
unfolding is_space strip_end
colon-Word = record { starts = refl; ends = refl; no_comment = (refl, tt) }

strip-section : (s : Str) → Key s → strip (section_line s) ≡ section_line s
unfolding strip
strip-section s k =
    ap strip_end
      (strip_start_plain (section_line s) (starts_plain-append s (codes ":") k.word.starts))
    ∙ strip_end_word s (codes ":") colon-Word

indented-append : (s t : Str) → starts_plain s ≡ true → indented (s ++ t) ≡ false
indented-append [] t h = absurd (ground (arith, h))
indented-append (c ∷ s) t h = ground (arith, h)

module _ {Float : Type 0} (R : Runtime Float) where
  read_content-option :
      (key value : Str) (r : Reader Float)
      → Key key
      → Word value
      → read_content R (option_line (key, value)) r ≡ put_in key (scalar_of R value) r r.current
  unfolding read_content is_space
  read_content-option key value r k v =
      rw (read_content, strip-option key value k v)
        (rw (empty-append key (codes ": " ++ value) refl) (
          rw (partition-append b':' key (codes " " ++ value) k.no_colon)
            (ap (λ t. put_in key (scalar_of R t) r r.current) (strip_spaced value v))))

  pub read_line-option :
      (key value : Str) (r : Reader Float)
      → Key key
      → Word value
      → read_line R (option_line (key, value)) r ≡ put_in key (scalar_of R value) r r.current
  unfolding read_line read_content
  read_line-option key value r k v =
      ap (λ s. read_content R s r)
        (ap strip_end (uncommented-option key value k v) ∙ strip_end-option key value v)
      ∙ read_content-option key value r k v

  read_content-section :
      (s : Str) (r : Reader Float)
      → Key s
      → read_content R (section_line s) r ≡ ok (put_top R s [] r)
  unfolding read_content strip strip_start strip_end
  read_content-section s r k =
      rw (read_content, strip-section s k)
        (rw (empty-append s (codes ":") refl) (
          rw (indented-append s (codes ":") k.word.starts)
            (rw (partition-append b':' s [] k.no_colon) refl)))

  pub read_line-section :
      (s : Str) (r : Reader Float) → Key s → read_line R (section_line s) r ≡ ok (put_top R s [] r)
  unfolding read_line
  read_line-section s r k =
      ap (λ l. read_content R l r)
        (ap strip_end (
            uncommented_same (section_line s)
              (Lacks-append b'#' s (codes ":") k.word.no_comment (refl, tt)))
          ∙ strip_end_word s (codes ":") colon-Word)
      ∙ read_content-section s r k
