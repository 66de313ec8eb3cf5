-- ===== src/Common/Outcome.antt =====
-- Go's `(value, error)` results: `ok` is a nil error.
use mathlib.Core.Path.{◌≡◌, refl}

pub data Result {ℓ} (E : Type ℓ) (A : Type ℓ) : Type ℓ where
  ok : A → Result E A
  err : E → Result E A

infixl 5 ◌>>=◌ ◌>>◌
abbrev pub ◌>>=◌ {ℓ} : {E A B : Type ℓ} → Result E A → (A → Result E B) → Result E B
ok a >>= f = f a
err e >>= f = err e

abbrev pub ◌>>◌ {ℓ} : {E B : Type ℓ} → Result E (Unit {ℓ}) → Result E B → Result E B
m >> k = m >>= λ _. k

-- A chain that succeeds: each of its parts does.
module _ {ℓ} {E : Type ℓ} where
  pub ok-left :
      {B : Type ℓ} (m : Result E (Unit {ℓ})) (k : Result E B) {b : B} → (m >> k) ≡ ok b → m ≡ ok tt
  ok-left (ok _) k h = refl
  ok-left (err _) k h = cc

  pub ok-right :
      {B : Type ℓ} (m : Result E (Unit {ℓ})) (k : Result E B) {b : B} → (m >> k) ≡ ok b → k ≡ ok b
  ok-right (ok _) k h = h
  ok-right (err _) k h = cc

  pub ok-bind :
      {A B : Type ℓ} (m : Result E A) (k : A → Result E B) {b : B}
      → (m >>= k) ≡ ok b
      → (a : A) × (m ≡ ok a) × (k a ≡ ok b)
  ok-bind (ok a) k h = (a, refl, h)
  ok-bind (err _) k h = cc
