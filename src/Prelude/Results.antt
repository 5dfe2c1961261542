-- ===== src/Prelude/Results.antt =====
-- How a Go call ends: with a value, with an error, or with a run-time panic.
use mathlib.Core.Path.{◌≡◌, refl}
use mathlib.Core.Bool.{Bool, true, false}
use mathlib.Core.Option.{Option, none, some}

pub data Outcome {ℓ κ} (E : Type ℓ) (A : Type κ) : Type (ℓ ⊔ κ) where
  ok : A → Outcome E A
  err : E → Outcome E A
  panic : Outcome E A

-- `v, ok := call(); if !ok { return e }`
abbrev pub or_fail {ℓ κ} : {E : Type ℓ} {A : Type κ} → Option A → E → Outcome E A
or_fail none e = err e
or_fail (some a) e = ok a

-- `if !test { return e }`
abbrev pub guard {ℓ} : {E : Type ℓ} → (test : Bool) → E → Outcome E (Unit {0})
guard false e = err e
guard true _ = ok tt

infixl 5 ◌>>=◌ ◌>>◌
abbrev pub ◌>>=◌ {ℓ κ μ} :
    {E : Type ℓ} {A : Type κ} {B : Type μ} → Outcome E A → (A → Outcome E B) → Outcome E B
err e >>= f = err e
panic >>= f = panic
ok a >>= f = f a

abbrev pub ◌>>◌ {ℓ κ} : {E : Type ℓ} {B : Type κ} → Outcome E (Unit {0}) → Outcome E B → Outcome E B
first >> next = first >>= λ done. next

-- What a successful chain of calls says of its parts.
pub >>=-eq-ok {ℓ κ μ} :
    {E : Type ℓ} {A : Type κ} {B : Type μ} (call : Outcome E A) (rest : A → Outcome E B) {value : B}
    (done : (call >>= rest) ≡ ok value)
    → (a : A) × (call ≡ ok a) × (rest a ≡ ok value)
>>=-eq-ok panic rest done = cc
>>=-eq-ok (err e) rest done = cc
>>=-eq-ok (ok a) rest done = (a, refl, done)

-- An error of one part, as an error of another.
abbrev pub map_error {ℓ κ μ} :
    {E : Type ℓ} {F : Type κ} {A : Type μ} → (E → F) → Outcome E A → Outcome F A
map_error f (ok a) = ok a
map_error f (err e) = err (f e)
map_error f panic = panic

pub or_fail-eq-ok {ℓ κ} :
    {E : Type ℓ} {A : Type κ} (o : Option A) (e : E) {a : A} → or_fail o e ≡ ok a → o ≡ some a
or_fail-eq-ok none e h = cc
or_fail-eq-ok (some b) e h = cc

pub ok-injective {ℓ κ} :
    {E : Type ℓ} {A : Type κ} {a b : A} → ◌≡◌ {A = Outcome E A} (ok a) (ok b) → a ≡ b
ok-injective h = cc

pub map_error-eq-ok {ℓ κ μ} :
    {E : Type ℓ} {F : Type κ} {A : Type μ} {a : A} (f : E → F) (r : Outcome E A)
    → map_error f r ≡ ok a
    → r ≡ ok a
map_error-eq-ok f (ok a) e = cc
map_error-eq-ok f (err x) e = cc
map_error-eq-ok f panic e = cc
