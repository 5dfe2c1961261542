-- ===== src/Chain/Monad.antt =====
-- Calls that change a state and may end in an error or a panic; what was written before stays
-- written.
use availproject_op_evm.Prelude.{◌≡◌, ap, Option, none, some, Outcome, ok, err, panic}
use availproject_op_evm.Chain.Types.{Error}

abbrev pub Action : Type 0 → Type 0 → Type 0
Action S A = S → Outcome Error A × S

-- The rest of the calls, after one that ended so.
abbrev pub resume : {S A B : Type 0} → (A → Action S B) → Outcome Error A × S → Outcome Error B × S
resume f (ok a, s) = f a s
resume f (err e, s) = (err e, s)
resume f (panic, s) = (panic, s)

infixl 5 ◌>>=◌ ◌>>◌
abbrev pub ◌>>=◌ : {S A B : Type 0} → Action S A → (A → Action S B) → Action S B
◌>>=◌ m f s = resume f (m s)

abbrev pub ◌>>◌ : {S A B : Type 0} → Action S A → Action S B → Action S B
m >> k = m >>= λ _. k

module _ {S A : Type 0} where
  abbrev pub pure : A → Action S A
  pure a s = (ok a, s)

  abbrev pub fail : Error → Action S A
  fail e s = (err e, s)

  abbrev pub stop : Action S A
  stop s = (panic, s)

  abbrev pub gets : (S → A) → Action S A
  gets f s = (ok (f s), s)

  abbrev pub or_error : Option A → Error → Action S A
  or_error none e s = (err e, s)
  or_error (some a) e s = (ok a, s)

abbrev pub modify : {S : Type 0} → (S → S) → Action S (Unit {0})
modify f s = (ok tt, f s)

-- After a call that returns a value, the rest goes on from the state that the call left.
pub >>=-ok :
    {S A B : Type 0} (m : Action S A) (f : A → Action S B) {s s' : S} {a : A}
    → m s ≡ (ok a, s')
    → (m >>= f) s ≡ f a s'
>>=-ok m f e = ap (resume f) e

-- After a call that returns an error, there is no rest.
pub >>=-err :
    {S A B : Type 0} (m : Action S A) (f : A → Action S B) {s s' : S} {e : Error}
    → m s ≡ (err e, s')
    → (m >>= f) s ≡ (err e, s')
>>=-err m f h = ap (resume f) h
