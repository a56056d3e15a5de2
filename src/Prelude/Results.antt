-- ===== src/Prelude/Results.antt =====
-- `Result<A, E>` and `?`, for any type of errors.
use mathlib.Core.Path.{◌≡◌, refl}
use mathlib.Core.Bool.{Bool, true, false}
use mathlib.Core.Option.{Option, none, some}
use subnext.Prelude.Tests.{if◌then◌else◌}

pub data Result {ℓ κ} (E : Type ℓ) (A : Type κ) : Type (ℓ ⊔ κ) where
  err : E → Result E A
  ok : A → Result E A

-- `Option::ok_or`
abbrev pub ok_or {ℓ κ} : {E : Type ℓ} {A : Type κ} → Option A → E → Result E A
ok_or none e = err e
ok_or (some a) e = ok a

-- The test of a condition that must hold: the error is returned where it does not.
abbrev pub guard {ℓ} : {E : Type ℓ} → Bool → E → Result E (Unit {0})
guard holds e = if holds then ok tt else err e

-- `?`, which hands the value to what follows.
infixl 5 ◌>>=◌
abbrev pub ◌>>=◌ {ℓ κ μ} :
    {E : Type ℓ} {A : Type κ} {B : Type μ} → Result E A → (A → Result E B) → Result E B
err e >>= next = err e
ok a >>= next = next a

infixl 5 ◌>>◌
abbrev pub ◌>>◌ {ℓ κ} : {E : Type ℓ} {B : Type κ} → Result E (Unit {0}) → Result E B → Result E B
test >> next = test >>= (λ done. next)

-- The parts of a call that returned a value.
pub >>=-eq-ok {ℓ κ μ} :
    {E : Type ℓ} {A : Type κ} {B : Type μ} (call : Result E A) (next : A → Result E B) {b : B}
    → (call >>= next) ≡ ok b
    → (a : A) × (call ≡ ok a) × (next a ≡ ok b)
>>=-eq-ok (err e) next returned = cc
>>=-eq-ok (ok a) next returned = (a, refl, returned)

pub guard-eq-ok {ℓ κ} :
    {E : Type ℓ} {B : Type κ} (c : Bool) (e : E) (next : Result E B) {b : B}
    → (guard c e >> next) ≡ ok b
    → (c ≡ true) × (next ≡ ok b)
guard-eq-ok false e next returned = cc
guard-eq-ok true e next returned = (refl, returned)

pub ok_eq {ℓ κ} : {E : Type ℓ} {A : Type κ} (m : Result E A) {a b : A} → m ≡ ok a → m ≡ ok b → a ≡ b
ok_eq m h k = cc
