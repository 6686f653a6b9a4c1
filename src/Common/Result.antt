-- ===== src/Common/Result.antt =====
-- Rust's `Result`, with `ok_or` and what `?` stands for.
use mathlib.Core.Path.{◌≡◌, refl}
use mathlib.Core.Logic.{◌⊎◌, inl, inr}
use mathlib.Core.Option.{Option, none, some}

pub data Result {ε α} (Error : Type ε) (Value : Type α) : Type (ε ⊔ α) where
  err : Error → Result Error Value
  ok : Value → Result Error Value

pub Result-cases {ε α} :
    {Error : Type ε} {Value : Type α} (r : Result Error Value)
    → ((e : Error) × (r ≡ err e)) ⊎ ((v : Value) × (r ≡ ok v))
Result-cases (ok v) = inr (v, refl)
Result-cases (err e) = inl (e, refl)

-- `ok_or(e)`.
abbrev pub ok_or {ε α} :
    {Error : Type ε} {Value : Type α} → Option Value → Error → Result Error Value
ok_or (some v) e = ok v
ok_or none e = err e

module _ {ε α β} {Error : Type ε} {Value : Type α} {Next : Type β} where
  infixl 5 ◌>>=◌
  abbrev pub ◌>>=◌ : Result Error Value → (Value → Result Error Next) → Result Error Next
  err e >>= next = err e
  ok v >>= next = next v

  -- What a successful chain is made of.
  pub >>=-eq-ok :
      (r : Result Error Value) (next : Value → Result Error Next) {n : Next}
      → (r >>= next) ≡ ok n
      → (v : Value) × (r ≡ ok v) × (next v ≡ ok n)
  >>=-eq-ok (err e) next h = cc
  >>=-eq-ok (ok v) next h = (v, refl, h)
