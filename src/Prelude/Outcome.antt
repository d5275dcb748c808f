-- ===== src/Prelude/Outcome.antt =====
-- A Go result `(value, error)`: a value, or an error.
use mathlib.Core.Bool.{Bool, true, false}
use mathlib.Core.Logic.{◌⊎◌, inl, inr}
use mathlib.Core.Path.{◌≡◌, refl}

pub data Result {ℓ} (E : Type ℓ) (A : Type ℓ) : Type ℓ where
  ok : A → Result E A
  err : E → Result E A

infixl 5 ◌>>=◌ ◌>>◌
abbrev pub ◌>>=◌ {ℓ} : {E A B : Type ℓ} → Result E A → (A → Result E B) → Result E B
ok a >>= f = f a
err e >>= f = err e

abbrev pub ◌>>◌ {ℓ} : {E B : Type ℓ} → Result E (Unit {ℓ}) → Result E B → Result E B
m >> k = m >>= λ _. k

-- `if bad { return err }`.
abbrev pub fail_if {ℓ} : {E : Type ℓ} → Bool → E → Result E (Unit {ℓ})
fail_if true e = err e
fail_if false e = ok tt

abbrev pub is_ok {ℓ} : {E A : Type ℓ} → Result E A → Bool
is_ok (ok a) = true
is_ok (err e) = false

pub Result-cases {ℓ} :
    {E A : Type ℓ} (r : Result E A) → ((a : A) × (r ≡ ok a)) ⊎ ((e : E) × (r ≡ err e))
Result-cases (ok a) = inl (a, refl)
Result-cases (err e) = inr (e, refl)

-- A chain that succeeds has steps that succeed.
pub ok-bind {ℓ} :
    {E A B : Type ℓ} (m : Result E A) (f : A → Result E B) (b : B)
    → (m >>= f) ≡ ok b
    → (a : A) × (m ≡ ok a) × (f a ≡ ok b)
ok-bind (ok a) f b h = (a, refl, h)
ok-bind (err e) f b h = cc

pub ok-fail_if {ℓ} :
    {E B : Type ℓ} (t : Bool) (e : E) (k : Result E B) (b : B)
    → (fail_if t e >> k) ≡ ok b
    → (t ≡ false) × (k ≡ ok b)
ok-fail_if true e k b h = cc
ok-fail_if false e k b h = (refl, h)

pub ok_inj {ℓ} : {E A : Type ℓ} (a b : A) → Path (Result E A) (ok a) (ok b) → a ≡ b
ok_inj a b h = cc
