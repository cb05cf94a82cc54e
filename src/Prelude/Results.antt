-- ===== src/Prelude/Results.antt =====
-- Chains of calls that return a value or raise.
use mathlib.Core.Path.{◌≡◌, refl}
use mathlib.Core.Bool.{Bool, true, false}
use llm_serve.Prelude.Actions.{Error, Result, ok, err}

pub ok_inj {ℓ} : {A : Type ℓ} {a b : A} → ◌≡◌ {A = Result A} (ok a) (ok b) → a ≡ b
ok_inj h = cc

module _ {ℓ} {A B : Type ℓ} where
  infixl 10 ◌>>=◌
  abbrev pub ◌>>=◌ : Result A → (A → Result B) → Result B
  ok a >>= rest = rest a
  err e >>= rest = err e

  -- A chain that returns has had a value at each call.
  pub bind-ok_inv :
      (m : Result A) (rest : A → Result B) {b : B}
      → m >>= rest ≡ ok b
      → (a : A) × (m ≡ ok a) × (rest a ≡ ok b)
  bind-ok_inv (ok a) rest h = (a, refl, h)
  bind-ok_inv (err e) rest h = cc

-- `if not test: raise e`
abbrev pub ensure : Bool → Error → Result (Unit {0})
ensure true e = ok tt
ensure false e = err e

pub ensure_inv : (b : Bool) (e : Error) {u : Unit {0}} → ensure b e ≡ ok u → b ≡ true
ensure_inv true e h = refl
ensure_inv false e h = cc
