-- ===== src/Prelude/Lists.antt =====
-- Lists measured by native numbers, and tests over them.
use Prim.Native.Nat.{ℕ, zero, suc, ◌+◌}
use mathlib.Core.Path.{◌≡◌, refl, ◌∙◌}
use mathlib.Core.Bool.{Bool, false, ◌||◌, Bool-set}
use mathlib.Core.Logic.{∥∥₁_elim}
use mathlib.Core.List.{List, [], ◌∷◌, ◌++◌, Perm, Permᴰ}
use native.Mathlib.Omega.{arith}
use availproject_op_evm.Prelude.Tests.{◌==◌}

module _ {ℓ} {A : Type ℓ} where
  abbrev pub length : List A → ℕ
  length [] = 0
  length (x ∷ xs) = suc (length xs)

  pub length-append : (xs ys : List A) → length (xs ++ ys) ≡ length xs + length ys
  length-append [] ys = omega arith
  length-append (x ∷ xs) ys = omega (arith, length-append xs ys)

module _ {ℓ} {A : Type ℓ} where
  abbrev pub take : ℕ → List A → List A
  take zero xs = []
  take (suc n) [] = []
  take (suc n) (x ∷ xs) = x ∷ take n xs

  abbrev pub drop : ℕ → List A → List A
  drop zero xs = xs
  drop (suc n) [] = []
  drop (suc n) (x ∷ xs) = drop n xs

  -- Two lists come apart again at the length of the first one.
  pub take-append : (xs ys : List A) → take (length xs) (xs ++ ys) ≡ xs
  take-append [] ys = ground arith
  take-append (x ∷ xs) ys = ground (arith, take-append xs ys)

  pub drop-append : (xs ys : List A) → drop (length xs) (xs ++ ys) ≡ ys
  drop-append [] ys = ground arith
  drop-append (x ∷ xs) ys = ground (arith, drop-append xs ys)

-- `for _, s := range xs { if s == a { return true } }; return false`
unfoldable pub elem : ℕ → List ℕ → Bool
elem a [] = false
elem a (x ∷ xs) = x == a || elem a xs

abbrev pub sum : List ℕ → ℕ
sum [] = 0
sum (x ∷ xs) = x + sum xs

permᴰ-elem : (a : ℕ) {xs ys : List ℕ} → Permᴰ xs ys → elem a xs ≡ elem a ys
unfolding elem
permᴰ-elem a Permᴰ.nil = refl
permᴰ-elem a (Permᴰ.cons e p) = rw (e, permᴰ-elem a p)
permᴰ-elem a (Permᴰ.swap e f) = rw (e, f) (ground arith)
permᴰ-elem a (Permᴰ.trans p q) = permᴰ-elem a p ∙ permᴰ-elem a q

pub perm-elem : (a : ℕ) {xs ys : List ℕ} → Perm xs ys → elem a xs ≡ elem a ys
perm-elem a p = ∥∥₁_elim p (Bool-set _ _) (permᴰ-elem a)
