-- ===== src/Prelude/Actions.antt =====
-- Methods that change an object and may raise. What was written before an exception stays written,
-- so the state comes back beside the error too.

-- The exception classes that the program raises or meets.
pub data Error : Type 0 where
  block_allocation_error value_error runtime_error index_error key_error : Error
  config_error validation_error type_error overflow_error attribute_error : Error

pub data Result {ℓ} (A : Type ℓ) : Type ℓ where
  ok : A → Result A
  err : Error → Result A

abbrev pub Exec : Type 0 → Type 0 → Type 0
Exec S A = S → Result A × S

module _ {S A : Type 0} where
  abbrev pub pure : A → Exec S A
  pure a s = (ok a, s)

  abbrev pub raise : Error → Exec S A
  raise e s = (err e, s)

module _ {S A B : Type 0} where
  -- An exception passes the rest of the method by.
  abbrev pub continue : Result A → (A → Exec S B) → Exec S B
  continue (err e) rest state = (err e, state)
  continue (ok a) rest state = rest a state

  infixl 10 ◌>>=◌ ◌>>◌
  abbrev pub ◌>>=◌ : Exec S A → (A → Exec S B) → Exec S B
  ◌>>=◌ first rest state = let done = first state in continue done.0 rest done.1

  abbrev pub ◌>>◌ : Exec S A → Exec S B → Exec S B
  first >> second = first >>= λ _. second

module _ {S : Type 0} where
  abbrev pub put_state : S → Exec S (Unit {0})
  put_state next _ = (ok tt, next)

  abbrev pub get_state : Exec S S
  get_state state = (ok state, state)
