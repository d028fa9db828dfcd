-- ===== src/Base/Results.antt =====
-- Go's `(value, error)`: a value or an error.
use mathlib.Core.Path.{◌≡◌, refl, ap}
use mathlib.Core.Logic.{◌⊎◌, inl, inr}

pub data Result {ℓ} (E A : Type ℓ) : Type ℓ where
  ok : A → Result E A
  err : E → Result E A

infixl 5 ◌>>=◌
abbrev pub ◌>>=◌ {ℓ} : {E A B : Type ℓ} → Result E A → (A → Result E B) → Result E B
ok a >>= f = f a
err e >>= f = err e

module _ {ℓ} {E A : Type ℓ} where
  pub ok_inj : (a b : A) → ◌≡◌ {A = Result E A} (ok a) (ok b) → a ≡ b
  ok_inj a b h = cc

  pub err_inj : (d e : E) → ◌≡◌ {A = Result E A} (err d) (err e) → d ≡ e
  err_inj d e h = cc

  pub Result-cases : (r : Result E A) → ((a : A) × (r ≡ ok a)) ⊎ ((e : E) × (r ≡ err e))
  Result-cases (ok a) = inl (a, refl)
  Result-cases (err e) = inr (e, refl)

module _ {ℓ} {E A B : Type ℓ} where
  pub bind-eq-ok :
      (m : Result E A) (f : A → Result E B) {b : B}
      → (m >>= f) ≡ ok b
      → (a : A) × (m ≡ ok a) × (f a ≡ ok b)
  bind-eq-ok (ok a) f h = (a, refl, h)
  bind-eq-ok (err e) f h = cc

  pub bind-ok : (m : Result E A) (f : A → Result E B) (a : A) → m ≡ ok a → (m >>= f) ≡ f a
  bind-ok (ok b) f a h = ap f (ok_inj b a h)
  bind-ok (err e) f a h = cc
