-- ===== src/Prelude/Result.antt =====
-- Values and errors: Go's `(A, error)` results, of which one part is meaningful.
use mathlib.Core.Path.{◌≡◌, refl, ap}
use native.Mathlib.Omega.{arith}
use mathlib.Core.Logic.{◌⊎◌, inl, inr}

pub data Result {ℓ} (E A : Type ℓ) : Type ℓ where
  ok : A → Result E A
  err : E → Result E A

infixl 10 ◌>>=◌ ◌>>◌
abbrev pub ◌>>=◌ {ℓ} : {E A B : Type ℓ} → Result E A → (A → Result E B) → Result E B
ok a >>= f = f a
err e >>= f = err e

abbrev pub ◌>>◌ {ℓ} : {E A B : Type ℓ} → Result E A → Result E B → Result E B
m >> k = m >>= λ _. k

pub ok_or_err : {E A : Type 0} (r : Result E A) → ((a : A) × (r ≡ ok a)) ⊎ ((e : E) × (r ≡ err e))
ok_or_err (ok a) = inl (a, refl)
ok_or_err (err e) = inr (e, refl)

-- A chain that gives a value has one at each step.
pub bind_ok :
    {E A B : Type 0} (r : Result E A) (f : A → Result E B) (b : B)
    → (r >>= f) ≡ ok b
    → (a : A) × (r ≡ ok a) × (f a ≡ ok b)
bind_ok (ok a) f b h = (a, refl, h)
bind_ok (err e) f b h = ground arith

pub ok_injective : {E A : Type 0} {a b : A} → ◌≡◌ {A = Result E A} (ok a) (ok b) → a ≡ b
ok_injective {E} {A} {a} {b} h =
    ap (λ (r : Result E A). elim r as (λ _. A) [ ok c ↦ c | err _ ↦ a ]) h
