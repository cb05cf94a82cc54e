-- ===== src/Prelude/Triples.antt =====
-- Total correctness of a method from one state: it returns, and the result meets a condition.
use mathlib.Core.Path.{◌≡◌, refl, ap, ◌∙◌}
use mathlib.Core.Bool.{Bool, true, false}
use llm_serve.Prelude.Tests.{if◌then◌else◌}
use llm_serve.Prelude.Actions.{ok, Exec, continue, ◌>>=◌}

-- `m` returns a value from the state `s`, with `Q` of the value and of the final state.
pub record Runs {S A : Type 0} (m : Exec S A) (s : S) (Q : A → S → Type 0) : Type 0 where
  pub value : A
  pub final : S
  pub run : m s ≡ (ok value, final)
  pub post : Q value final

module _ {S A : Type 0} where
  pub Runs-here :
      {Q : A → S → Type 0} (a : A) (s : S) {m : Exec S A} → m s ≡ (ok a, s) → Q a s → Runs m s Q
  Runs-here a s e q = record { value = a; final = s; run = e; post = q }

  -- A method that goes on as another one does from another state.
  pub Runs-jump :
      {m n : Exec S A} {s t : S} {Q : A → S → Type 0} → m s ≡ n t → Runs n t Q → Runs m s Q
  Runs-jump e r = record { value = r.value; final = r.final; run = e ∙ r.run; post = r.post }

  pub Runs-weaken :
      {m : Exec S A} {s : S} {Q R : A → S → Type 0}
      → Runs m s Q
      → ((a : A) (t : S) → Q a t → R a t)
      → Runs m s R
  Runs-weaken r f = record { value = r.value; final = r.final; run = r.run; post = f _ _ r.post }

module _ {S A B : Type 0} where
  -- The rule of sequencing.
  pub Runs-bind :
      {m : Exec S A} {f : A → Exec S B} {s : S} {Q : A → S → Type 0} {R : B → S → Type 0}
      → Runs m s Q
      → ((a : A) (t : S) → Q a t → Runs (f a) t R)
      → Runs (m >>= f) s R
  Runs-bind {f} r next =
      let rest = next r.value r.final r.post in
      record {
        value = rest.value;
        final = rest.final;
        run = ap (λ p. continue p.0 f p.1) r.run ∙ rest.run;
        post = rest.post;
      }

module _ {S A : Type 0} where
  pub Runs-if :
      (b : Bool) {m n : Exec S A} {s : S} {Q : A → S → Type 0}
      → (b ≡ true → Runs m s Q)
      → (b ≡ false → Runs n s Q)
      → Runs (if b then m else n) s Q
  Runs-if true f g = f refl
  Runs-if false f g = g refl
