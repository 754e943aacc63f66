-- ===== src/Common/Fallible.antt =====
-- Go's `(value, error)` pair: a value, or one of the errors of a component.
use mathlib.Core.Path.{◌≡◌, refl}
use mathlib.Core.Logic.{◌⊎◌, inl, inr}

pub data Result {ℓ κ} (E : Type κ) (A : Type ℓ) : Type (ℓ ⊔ κ) where
  ok : A → Result E A
  err : E → Result E A

infixl 5 ◌>>=◌
abbrev pub ◌>>=◌ {ℓ κ μ} :
    {E : Type μ} {A : Type ℓ} {B : Type κ} → Result E A → (A → Result E B) → Result E B
ok a >>= f = f a
err e >>= f = err e

-- What an outcome has to satisfy: `P` of a value, `Q` of an error.
abbrev pub Outcome {ℓ κ μ} :
    {E : Type κ} {A : Type ℓ} → (A → Type μ) → (E → Type μ) → Result E A → Type μ
Outcome P Q (ok a) = P a
Outcome P Q (err e) = Q e

-- To split on a computed result and keep the equation.
pub Result-cases {ℓ κ} :
    {E : Type κ} {A : Type ℓ} (x : Result E A) → ((a : A) × (x ≡ ok a)) ⊎ ((e : E) × (x ≡ err e))
Result-cases (ok a) = inl (a, refl)
Result-cases (err e) = inr (e, refl)

pub Outcome-map {ℓ κ μ} :
    {E : Type κ} {A : Type ℓ} (P P' : A → Type μ) (Q Q' : E → Type μ) (x : Result E A)
    → ((a : A) → P a → P' a)
    → ((e : E) → Q e → Q' e)
    → Outcome P Q x
    → Outcome P' Q' x
Outcome-map P P' Q Q' (ok a) f g h = f a h
Outcome-map P P' Q Q' (err e) f g h = g e h
