-- ===== src/Prelude/Dict.antt =====
-- Go's `map[string]T` as an association list. Where the source ranges over a map the order is
-- open, so theorems about such code hold of every order.
use mathlib.Core.Path.{◌≡◌, refl}
use mathlib.Core.Logic.{inl, inr}
use mathlib.Core.Bool.{false}
use mathlib.Core.Option.{Option, none, some}
use mathlib.Core.List.{List, [], ◌∷◌, map, Perm}
use mathlib.Core.List.Perm
use native.Mathlib.Omega.{arith}
use availproject_op_evm.Prelude.Tests.{if◌then◌else◌, Bool-cases}
use availproject_op_evm.Prelude.Bytes.{Bytes, bytes_eq, bytes_eq_iff, bytes_eq_refl}

abbrev pub Dict {ℓ} : Type ℓ → Type ℓ
Dict V = List (Bytes × V)

module _ {ℓ} {V : Type ℓ} where
  -- `v, ok := m[k]`
  unfoldable pub lookup : Bytes → Dict V → Option V
  lookup k [] = none
  lookup k ((j, v) ∷ m) = if bytes_eq j k then some v else lookup k m

  -- `m[k] = v`
  unfoldable pub insert : Bytes → V → Dict V → Dict V
  insert k v [] = (k, v) ∷ []
  insert k v ((j, w) ∷ m) = if bytes_eq j k then (j, v) ∷ m else (j, w) ∷ insert k v m

  abbrev pub keys : Dict V → List Bytes
  keys m = map (λ e. e.0) m

  -- The key is not in the map.
  abbrev pub IsFree : Bytes → Dict V → Type 0
  IsFree k [] = Unit
  IsFree k ((j, v) ∷ m) = (bytes_eq j k ≡ false) × IsFree k m

  pub lookup-insert :
      (k j : Bytes) (v : V) (m : Dict V)
      → lookup j (insert k v m) ≡ (if bytes_eq k j then some v else lookup j m)
  unfolding lookup insert
  lookup-insert k j v [] = refl
  lookup-insert k j v ((i, w) ∷ m) =
      ground (arith, bytes_eq_iff k j, bytes_eq_iff i k, bytes_eq_iff i j, lookup-insert k j v m)

  -- No key is listed twice.
  abbrev pub IsMap : Dict V → Type 0
  IsMap [] = Unit
  IsMap ((k, v) ∷ m) = (IsFree k m) × IsMap m

  insert-IsFree :
      (k j : Bytes) (v : V) (m : Dict V)
      → bytes_eq j k ≡ false
      → IsFree k m
      → IsFree k (insert j v m)
  unfolding insert
  insert-IsFree k j v [] h f = (h, tt)
  insert-IsFree k j v ((i, w) ∷ m) h f = ground (arith, insert-IsFree k j v m h f.1)

  pub insert-IsMap : (k : Bytes) (v : V) (m : Dict V) → IsMap m → IsMap (insert k v m)
  unfolding insert
  insert-IsMap k v [] h = (tt, tt)
  insert-IsMap k v ((j, w) ∷ m) h =
      ground
        (arith, insert-IsMap k v m h.1, insert-IsFree j k v m, bytes_eq_iff j k, bytes_eq_iff k j)

  -- `delete(m, k)`
  unfoldable pub remove : Bytes → Dict V → Dict V
  remove k [] = []
  remove k ((j, v) ∷ m) = if bytes_eq j k then m else (j, v) ∷ remove k m

  pub lookup_free : (k : Bytes) (m : Dict V) → IsFree k m → lookup k m ≡ none
  unfolding lookup
  lookup_free k [] h = refl
  lookup_free k ((j, v) ∷ m) h = ground (arith, lookup_free k m h.1)

  IsFree-of_lookup : (k : Bytes) (m : Dict V) → lookup k m ≡ none → IsFree k m
  unfolding lookup
  IsFree-of_lookup k [] h = tt
  IsFree-of_lookup k ((j, v) ∷ m) h = ground (arith, IsFree-of_lookup k m)

  remove-IsFree : (k j : Bytes) (m : Dict V) → IsFree k m → IsFree k (remove j m)
  unfolding remove
  remove-IsFree k j [] h = tt
  remove-IsFree k j ((i, v) ∷ m) h = ground (arith, remove-IsFree k j m h.1)

  remove-IsMap : (k : Bytes) (m : Dict V) → IsMap m → IsMap (remove k m)
  unfolding remove
  remove-IsMap k [] h = tt
  remove-IsMap k ((j, v) ∷ m) h = ground (arith, remove-IsMap k m h.1, remove-IsFree j k m h.0)

  lookup-remove :
      (k j : Bytes) (m : Dict V)
      → IsMap m
      → lookup j (remove k m) ≡ (if bytes_eq k j then none else lookup j m)
  unfolding lookup remove
  lookup-remove k j [] h = ground arith
  lookup-remove k j ((i, w) ∷ m) h = ground (
    arith,
    bytes_eq_iff k j,
    bytes_eq_iff i k,
    bytes_eq_iff i j,
    lookup-remove k j m h.1,
    lookup_free i m h.0,
  )

  remove-perm :
      (k : Bytes) (v : V) (m : Dict V) → lookup k m ≡ some v → Perm m ((k, v) ∷ remove k m)
  unfolding lookup remove
  remove-perm k v [] h = cc
  remove-perm k v ((j, w) ∷ m) h = elim (Bool-cases (bytes_eq j k)) [
    | inl e ↦ rw e (Perm.cons' (ground (arith, bytes_eq_iff j k)) Perm.rfl)
    | inr e ↦ rw e (
        Perm.trans (Perm.cons (j, w) (remove-perm k v m (ground arith)))
          (Perm.swap (k, v) (j, w) _))
  ]

  -- Two maps with the same entries are permutations of one another.
  pub perm_of_lookup :
      (a b : Dict V) → IsMap a → IsMap b → ((k : Bytes) → lookup k a ≡ lookup k b) → Perm a b
  unfolding lookup
  perm_of_lookup [] [] h g same = Perm.rfl
  perm_of_lookup [] ((j, w) ∷ b) h g same = absurd (ground (arith, same j, bytes_eq_refl j))
  perm_of_lookup ((k, v) ∷ a) b h g same =
      Perm.trans (Perm.cons (k, v) (perm_of_lookup a (remove k b) h.1 (remove-IsMap k b g) rest))
        (Perm.symm (remove-perm k v b first))
    where
      first : lookup k b ≡ some v
      first = ground (arith, same k, bytes_eq_refl k)

      rest : (j : Bytes) → lookup j a ≡ lookup j (remove k b)
      rest j = ground (arith, same j, lookup-remove k j b g, bytes_eq_iff k j, lookup_free k a h.0)

pub keys-perm {ℓ} : {V : Type ℓ} {a b : Dict V} → Perm a b → Perm (keys a) (keys b)
keys-perm p = Perm.map (λ e. e.0) p

pub Keys-set : IsSet (List Bytes)
Keys-set = hlevel
