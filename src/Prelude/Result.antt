-- ===== src/Prelude/Result.antt =====
-- A value and an error of the program's own: Go's `(value, error)` pairs.
use mathlib.Core.Path.{◌≡◌, refl}
use mathlib.Core.Bool.{Bool, true, false}
use mathlib.Core.Option.{Option, none, some}
use native.Mathlib.Omega.{arith}

pub data Result {ℓ κ} (E : Type κ) (A : Type ℓ) : Type (ℓ ⊔ κ) where
  ok : A → Result E A
  err : E → Result E A

infixl 5 ◌>>=◌ ◌>>◌
abbrev pub ◌>>=◌ {ℓ κ μ} :
    {E : Type μ} {A : Type ℓ} {B : Type κ} → Result E A → (A → Result E B) → Result E B
ok a >>= f = f a
err e >>= f = err e

abbrev pub ◌>>◌ {ℓ μ} : {E : Type μ} {B : Type ℓ} → Result E (Unit {0}) → Result E B → Result E B
m >> k = m >>= λ _. k

-- Goes on if the test holds.
abbrev pub check {μ} : {E : Type μ} → Bool → E → Result E (Unit {0})
check true e = ok tt
check false e = err e

abbrev pub or_err {ℓ μ} : {E : Type μ} {A : Type ℓ} → Option A → E → Result E A
or_err (some a) e = ok a
or_err none e = err e

pub bind-eq-ok {ℓ κ μ} :
    {E : Type μ} {A : Type ℓ} {B : Type κ} (m : Result E A) (f : A → Result E B) {b : B}
    → (m >>= f) ≡ ok b
    → (a : A) × (m ≡ ok a) × (f a ≡ ok b)
bind-eq-ok (ok a) f h = (a, refl, h)
bind-eq-ok (err e) f h = cc

pub check-eq-ok {ℓ μ} :
    {E : Type μ} {B : Type ℓ} (t : Bool) (e : E) (k : Result E B) {b : B}
    → (check t e >> k) ≡ ok b
    → (t ≡ true) × (k ≡ ok b)
check-eq-ok true e k h = (refl, h)
check-eq-ok false e k h = cc

pub or_err-eq-ok {ℓ μ} :
    {E : Type μ} {A : Type ℓ} (o : Option A) (e : E) {a : A} → or_err o e ≡ ok a → o ≡ some a
or_err-eq-ok (some b) e h = ground arith
or_err-eq-ok none e h = cc
