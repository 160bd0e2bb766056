-- ===== src/Prelude/Fallible.antt =====
-- A value or an error, Go's `(T, error)`.
use mathlib.Core.Path.{◌≡◌, refl}
use mathlib.Core.Logic.{◌⊎◌, inl, inr}
use envbox.Prelude.Errors.{Error, wrap}
use envbox.Prelude.Text.{Bytes}

pub data Result {ℓ} (A : Type ℓ) : Type ℓ where
  ok : A → Result A
  err : Error → Result A

infixl 5 ◌>>=◌
abbrev pub ◌>>=◌ {ℓ κ} : {A : Type ℓ} {B : Type κ} → Result A → (A → Result B) → Result B
ok a >>= f = f a
err e >>= f = err e

-- `return xerrors.Errorf("what: %w", err)` where the call failed.
abbrev pub context {ℓ} : {A : Type ℓ} → Bytes → Result A → Result A
context what (ok a) = ok a
context what (err e) = err (wrap what e)

pub Result-cases {ℓ} :
    {A : Type ℓ} (r : Result A) → ((a : A) × (r ≡ ok a)) ⊎ ((e : Error) × (r ≡ err e))
Result-cases (ok a) = inl (a, refl)
Result-cases (err e) = inr (e, refl)
