-- ===== src/Base/Results.antt =====
-- What code that throws returns: a value, or the error that was thrown.
use mathlib.Core.Path.{◌≡◌, refl}
use mathlib.Core.Bool.{Bool, true, false}

pub data Result {ℓ κ} (E : Type κ) (A : Type ℓ) : Type (ℓ ⊔ κ) where
  ok : A → Result E A
  err : E → Result E A

-- `abbrev`, so that `ok a >>= f` computes wherever it stands.
infixl 5 ◌>>=◌ ◌>>◌
abbrev pub ◌>>=◌ {ℓ κ μ} :
    {E : Type κ} {A : Type ℓ} {B : Type μ} → Result E A → (A → Result E B) → Result E B
ok a >>= f = f a
err e >>= f = err e

abbrev pub ◌>>◌ {ℓ κ} : {E : Type κ} {B : Type ℓ} → Result E (Unit {0}) → Result E B → Result E B
m >> k = m >>= λ _. k

-- `if (!test) throw e`
abbrev pub require {κ} : {E : Type κ} → Bool → E → Result E (Unit {0})
require true e = ok tt
require false e = err e

-- What a chain that succeeds went through.
module _ {ℓ κ μ} {E : Type κ} {A : Type ℓ} {B : Type μ} (f : A → Result E B) (y : B) where
  abbrev Through : Result E A → Type (ℓ ⊔ κ ⊔ μ)
  Through r = (r >>= f) ≡ ok y → (x : A) × (r ≡ ok x) × (f x ≡ ok y)

  through : (r : Result E A) → Through r
  through = elim [ ok x ↦ λ h. (x, refl, h) | err e ↦ λ h. cc ]

pub >>=-eq-ok {ℓ κ μ} :
    {E : Type κ} {A : Type ℓ} {B : Type μ} (r : Result E A) (f : A → Result E B) {y : B}
    → (r >>= f) ≡ ok y
    → (x : A) × (r ≡ ok x) × (f x ≡ ok y)
>>=-eq-ok r f {y} = through f y r

pub ok_inj {ℓ κ} : {E : Type κ} {A : Type ℓ} {a b : A} → ◌≡◌ {A = Result E A} (ok a) (ok b) → a ≡ b
ok_inj h = cc
