-- ===== src/Prelude/Errors.antt =====
-- A result that is a value or an error.
use mathlib.Core.Path.{◌≡◌, refl}
use mathlib.Core.Logic.{◌⊎◌, inl, inr, ◌↔◌}
use native.Mathlib.Omega.{arith}
use mathlib.Core.Bool.{Bool, true, false}

pub data Except {ℓ κ} (E : Type ℓ) (A : Type κ) : Type (ℓ ⊔ κ) where
  ok : A → Except E A
  err : E → Except E A

infixl 5 ◌>>=◌ ◌>>◌
abbrev pub ◌>>=◌ {ℓ κ μ} :
    {E : Type ℓ} {A : Type κ} {B : Type μ} → Except E A → (A → Except E B) → Except E B
ok a >>= f = f a
err e >>= f = err e

abbrev pub ◌>>◌ {ℓ μ} : {E : Type ℓ} {B : Type μ} → Except E (Unit {0}) → Except E B → Except E B
m >> k = m >>= λ _. k

-- An early `return err` under a condition.
abbrev pub reject_if {ℓ} : {E : Type ℓ} → Bool → E → Except E (Unit {0})
reject_if true e = err e
reject_if false e = ok tt

pub bind-eq-ok {ℓ κ μ} :
    {E : Type ℓ} {A : Type κ} {B : Type μ} (m : Except E A) (f : A → Except E B) {b : B}
    → (m >>= f) ≡ ok b
    → (a : A) × (m ≡ ok a) × (f a ≡ ok b)
bind-eq-ok (ok a) f h = (a, refl, h)
bind-eq-ok (err e) f h = cc

pub Except-cases {ℓ κ} :
    {E : Type ℓ} {A : Type κ} (m : Except E A) → ((a : A) × (m ≡ ok a)) ⊎ ((e : E) × (m ≡ err e))
Except-cases (ok a) = inl (a, refl)
Except-cases (err e) = inr (e, refl)

-- A guarded sequence returns just when the guard passes and the rest returns.
pub then_iff {ℓ μ} :
    {E : Type ℓ} {B : Type μ} (m : Except E (Unit {0})) (k : Except E B) (b : B)
    → ((m >> k) ≡ ok b) ↔ ((m ≡ ok tt) × (k ≡ ok b))
then_iff (ok a) k b = ground arith
then_iff (err e) k b = ground arith
