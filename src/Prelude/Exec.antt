-- ===== src/Prelude/Exec.antt =====
-- Methods on `&mut self` in sequence: `?` returns at the first error, with the state as it is then.
use zebulon_lang.Prelude.Results.{Result, ok, err}

abbrev pub Method {ℓ κ ι} : Type ℓ → Type κ → Type ι → Type (ℓ ⊔ κ ⊔ ι)
Method S E A = S → Result E A × S

module _ {ℓ κ ι} {S : Type ℓ} {E : Type κ} {A : Type ι} where
  abbrev pub pure : A → Method S E A
  pure a s = (ok a, s)

  abbrev pub raise : E → Method S E A
  raise e s = (err e, s)

  -- A call on `&self`, with its `?`.
  abbrev pub asks : (S → Result E A) → Method S E A
  asks f s = (f s, s)

module _ {ℓ κ} {S : Type ℓ} {E : Type κ} where
  abbrev pub modify : (S → S) → Method S E (Unit {0})
  modify f s = (ok tt, f s)

module _ {ℓ κ ι ο} {S : Type ℓ} {E : Type κ} {A : Type ι} {B : Type ο} where
  abbrev pub continue : Result E A → (A → Method S E B) → Method S E B
  continue (ok a) f s = f a s
  continue (err e) f s = (err e, s)

  infixl 5 ◌>>=◌ ◌>>◌
  abbrev pub ◌>>=◌ : Method S E A → (A → Method S E B) → Method S E B
  ◌>>=◌ m f s = let (r, s') = m s in continue r f s'

  abbrev pub ◌>>◌ : Method S E A → Method S E B → Method S E B
  m >> n = m >>= λ _. n
