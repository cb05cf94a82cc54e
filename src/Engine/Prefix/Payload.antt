-- ===== src/Engine/Prefix/Payload.antt =====
-- The text that llm_serve/engine/prefix_cache.py hashes for a block, and a reader of it.
use llm_serve.Prelude.{
  ℕ, zero, suc, ◌+◌, ◌-◌, ◌*◌, ◌/◌, ◌%◌, ◌≤◌, ◌<◌, ◌≡◌, ◌≢◌, refl, ap, ◌∙◌, sym, false, List, [],
  ◌∷◌, ◌++◌, append_assoc, append-nil, length, All, Str, show, show_from, ltb, ◌==◌, if◌then◌else◌,
  Bool-cases, inl, inr, arith,
}
use llm_serve.Engine.Prefix.{join_tokens, payload}

abbrev IsDigit : ℕ → Type 0
IsDigit c = (48 ≤ c) × (c ≤ 57)

-- The number that digits stand for, after the number `v`.
read : ℕ → Str → ℕ
read v [] = v
read v (c ∷ cs) = read (v * 10 + (c - 48)) cs

read-append : (v : ℕ) (ds : Str) (c : ℕ) → read v (ds ++ c ∷ []) ≡ read v ds * 10 + (c - 48)
unfolding read
read-append v [] c = refl
read-append v (d ∷ ds) c = read-append (v * 10 + (d - 48)) ds c

All-append_one : (ds : Str) (c : ℕ) → All IsDigit ds → IsDigit c → All IsDigit (ds ++ c ∷ [])
All-append_one [] c h d = (d, tt)
All-append_one (e ∷ ds) c h d = (h.0, All-append_one ds c h.1 d)

-- The decimal digits of `n`.
record Decimal (n : ℕ) (s acc : Str) : Type 0 where
  digits : Str
  text : s ≡ digits ++ acc
  are_digits : All IsDigit digits
  number : read 0 digits ≡ n

show_from-Decimal : (fuel n : ℕ) (acc : Str) → n < fuel → Decimal n (show_from fuel n acc) acc
unfolding show_from read
show_from-Decimal zero n acc h = absurd (omega arith)
show_from-Decimal (suc fuel) n acc h = elim (Bool-cases (ltb n 10)) [
  | inl small ↦ record {
    digits = (48 + n) ∷ [];
    text = rw small;
    are_digits = ((omega arith, ground arith), tt);
    number = omega arith;
  }
  | inr big ↦
      let c = 48 + n % 10 in
      let d = show_from-Decimal fuel (n / 10) (c ∷ acc) (ground arith) in
      record {
        digits = d.digits ++ c ∷ [];
        text = rw big (d.text ∙ sym (append_assoc d.digits (c ∷ []) acc));
        are_digits = All-append_one d.digits c d.are_digits (omega arith, omega arith);
        number = omega (arith, read-append 0 d.digits c, d.number);
      }
]

show-Decimal : (n : ℕ) → Decimal n (show n) []
unfolding show
show-Decimal n = show_from-Decimal (suc n) n [] (omega arith)

-- The numbers between the commas, the first of them continuing `v`.
decode : ℕ → Str → List ℕ
decode v [] = v ∷ []
decode v (c ∷ cs) =
    let next = decode 0 cs in
    let more = decode (v * 10 + (c - 48)) cs in if c == b',' then v ∷ next else more

decode-append :
    (v : ℕ) (ds rest : Str) → All IsDigit ds → decode v (ds ++ rest) ≡ decode (read v ds) rest
unfolding decode read
decode-append v [] rest h = refl
decode-append v (d ∷ ds) rest h =
    let other : (d == b',') ≡ false = ground arith in
    rw other (decode-append (v * 10 + (d - 48)) ds rest h.1)

decode-show : (n : ℕ) (rest : Str) → decode 0 (show n ++ rest) ≡ decode n rest
decode-show n rest =
    let d = show-Decimal n in
    rw (d.text, append-nil d.digits, decode-append 0 d.digits rest d.are_digits, d.number)

-- A chunk that is not empty is read back from its text.
decode-join_tokens : (t : ℕ) (chunk : List ℕ) → decode 0 (join_tokens (t ∷ chunk)) ≡ t ∷ chunk
unfolding join_tokens decode
decode-join_tokens t [] = ap (decode 0) (sym (append-nil (show t))) ∙ decode-show t []
decode-join_tokens t (u ∷ rest) =
    decode-show t (b',' ∷ join_tokens (u ∷ rest)) ∙ ap (◌∷◌ t) (decode-join_tokens u rest)

-- No character of the text is `|`.
abbrev pub NoBar : Str → Type 0
NoBar s = All (λ c. c ≢ b'|') s

before_bar : Str → Str
before_bar [] = []
before_bar (c ∷ cs) = let rest = before_bar cs in if c == b'|' then [] else c ∷ rest

after_bar : Str → Str
after_bar [] = []
after_bar (c ∷ cs) = let rest = after_bar cs in if c == b'|' then cs else rest

before_bar_lem : (p j : Str) → NoBar p → before_bar (p ++ b'|' ∷ j) ≡ p
unfolding before_bar
before_bar_lem [] j h = refl
before_bar_lem (c ∷ p) j h = ground (arith, before_bar_lem p j h.1, h.0)

after_bar_lem : (p j : Str) → NoBar p → after_bar (p ++ b'|' ∷ j) ≡ j
unfolding after_bar
after_bar_lem [] j h = refl
after_bar_lem (c ∷ p) j h = ground (arith, after_bar_lem p j h.1, h.0)

-- The hashed payload determines the parent hash and the tokens of the block, if the parent hashes
-- hold no `|` and the blocks are not empty.
pub payload-injective :
    (p q : Str) (a b : List ℕ)
    → NoBar p
    → NoBar q
    → 0 < length a
    → 0 < length b
    → payload p a ≡ payload q b
    → (p ≡ q) × (a ≡ b)
unfolding payload
payload-injective p q [] b hp hq ha hb e = absurd (omega arith)
payload-injective p q (x ∷ a) [] hp hq ha hb e = absurd (omega arith)
payload-injective p q (x ∷ a) (y ∷ b) hp hq ha hb e =
    let ja = join_tokens (x ∷ a) in
    let jb = join_tokens (y ∷ b) in
    let parents = sym (before_bar_lem p ja hp) ∙ ap before_bar e ∙ before_bar_lem q jb hq in
    let texts = sym (after_bar_lem p ja hp) ∙ ap after_bar e ∙ after_bar_lem q jb hq in
    (parents, sym (decode-join_tokens x a) ∙ ap (decode 0) texts ∙ decode-join_tokens y b)
