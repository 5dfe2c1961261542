-- ===== src/Prelude/Sort.antt =====
-- `sort.Stable` and `sort.Strings`: sorting by a total order. The result is a permutation of the
-- input, and permutations of one list have the same result.
use mathlib.Core.Path.{◌≡◌, refl, ap₂, ◌∙◌}
use mathlib.Core.Logic.{◌⊎◌, inl, inr, ∥∥₁_elim}
use mathlib.Core.Bool.{Bool, true}
use mathlib.Core.List.{List, [], ◌∷◌, Perm, Permᴰ}
use mathlib.Core.List.Perm
use native.Mathlib.Omega.{arith}
use availproject_op_evm.Prelude.Tests.{if◌then◌else◌, Bool-cases}

pub record TotalOrder {ℓ} (A : Type ℓ) : Type ℓ where
  pub leb : A → A → Bool
  pub leb_total : (a b : A) → (leb a b ≡ true) ⊎ (leb b a ≡ true)
  pub leb_antisymm : (a b : A) → leb a b ≡ true → leb b a ≡ true → a ≡ b
  pub leb_trans : (a b c : A) → leb a b ≡ true → leb b c ≡ true → leb a c ≡ true

module _ {ℓ} {A : Type ℓ} (o : TotalOrder A) where
  insert : A → List A → List A
  insert x [] = x ∷ []
  insert x (y ∷ ys) = if o.leb x y then x ∷ y ∷ ys else y ∷ insert x ys

  unfoldable pub sort : List A → List A
  unfolding insert
  sort [] = []
  sort (x ∷ xs) = insert x (sort xs)

  insert-perm : (x : A) (ys : List A) → Perm (insert x ys) (x ∷ ys)
  unfolding insert
  insert-perm x [] = Perm.refl _
  insert-perm x (y ∷ ys) = elim (Bool-cases (o.leb x y)) [
    | inl e ↦ rw e (Perm.refl _)
    | inr e ↦ rw e (Perm.trans (Perm.cons y (insert-perm x ys)) (Perm.swap x y ys))
  ]

  pub sort-perm : (xs : List A) → Perm (sort xs) xs
  unfolding sort
  sort-perm [] = Perm.refl _
  sort-perm (x ∷ xs) = Perm.trans (insert-perm x (sort xs)) (Perm.cons x (sort-perm xs))

  insert_comm : (x y : A) (zs : List A) → insert x (insert y zs) ≡ insert y (insert x zs)
  unfolding insert
  insert_comm x y [] = ground (arith, o.leb_total x y, o.leb_antisymm x y)
  insert_comm x y (z ∷ zs) = ground (
    arith,
    insert_comm x y zs,
    o.leb_total x y,
    o.leb_antisymm x y,
    o.leb_trans x y z,
    o.leb_trans y x z,
  )

  permᴰ-sort : {xs ys : List A} → Permᴰ xs ys → sort xs ≡ sort ys
  unfolding sort
  permᴰ-sort Permᴰ.nil = refl
  permᴰ-sort (Permᴰ.cons e p) = ap₂ insert e (permᴰ-sort p)
  permᴰ-sort (Permᴰ.swap {a = a} {b = b} {l = l} e f) =
      insert_comm a b (sort l) ∙ ap₂ (λ u v. insert u (insert v (sort l))) f e
  permᴰ-sort (Permᴰ.trans p q) = permᴰ-sort p ∙ permᴰ-sort q

  -- The result does not depend on the order of the input.
  pub perm-sort : IsSet (List A) → {xs ys : List A} → Perm xs ys → sort xs ≡ sort ys
  perm-sort set p = ∥∥₁_elim p (set _ _) permᴰ-sort
