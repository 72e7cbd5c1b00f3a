-- ===== src/Prelude/Results.antt =====
-- Rust's `Result<T, E>`, its `?`, and what a call that got past a `?` had before it.
use mathlib.Core.Path.{◌≡◌, refl}
use mathlib.Core.Logic.{◌⊎◌, inl, inr}

pub data Result {ε α} (Error : Type ε) (Value : Type α) : Type (ε ⊔ α) where
  err : Error → Result Error Value
  ok : Value → Result Error Value

pub Result-cases {ε α} :
    {Error : Type ε} {Value : Type α} (r : Result Error Value)
    → ((e : Error) × (r ≡ err e)) ⊎ ((v : Value) × (r ≡ ok v))
Result-cases (err e) = inl (e, refl)
Result-cases (ok v) = inr (v, refl)

module _ {ε α β} {Error : Type ε} {Value : Type α} {Other : Type β} where
  infixl 5 ◌>>=◌
  abbrev pub ◌>>=◌ : Result Error Value → (Value → Result Error Other) → Result Error Other
  ◌>>=◌ (err e) next = err e
  ◌>>=◌ (ok v) next = next v
