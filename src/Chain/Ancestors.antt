-- ===== src/Chain/Ancestors.antt =====
-- `GetHashHelper` of pkg/blockchain/blockchain.go: the hashes of earlier blocks, as a contract asks
-- for them, against the walk along the parents.
use availproject_op_evm.Prelude.{
  ℕ, zero, suc, ◌+◌, ◌-◌, ◌%◌, ◌<◌, ◌≡◌, refl, sym, subst, ◌∙◌, ap, false, Option, none, some, ok,
  arith, ltb, ◌==◌, ==_iff, if◌then◌else◌, Bool-cases, Option-cases, inl, inr,
}
use availproject_op_evm.Chain.Types.{Hash, u64_mod, Header}
use availproject_op_evm.Chain.Monad.{Action, ◌>>=◌, pure, >>=-ok}
use availproject_op_evm.Chain.Store.{LruLaws}
use availproject_op_evm.Chain.Writes.{Env, Chain, read_header}
use availproject_op_evm.Chain.Writes.Reads.{HeadersAgree, loaded, read_header-cache}

module _ (env : Env) where
  -- The loop of the function: the number that it is at, and the hash of the block of that number.
  pub hash_at : ℕ → ℕ → Hash → Action (Chain env) Hash
  hash_at i zero hash = if 0 == i then pure hash else (read_header env hash >>= λ found. pure 0)
  hash_at i (suc n) hash =
      if suc n == i
      then pure hash
      else (read_header env hash >>= λ found. elim found [
        | none ↦ pure 0
        | some h ↦ hash_at i n h.parent_hash
      ])

  -- `GetHashHelper`.
  pub get_hash_helper : Header → ℕ → Action (Chain env) Hash
  get_hash_helper header i = hash_at i ((header.number + u64_mod - 1) % u64_mod) header.parent_hash

  -- So many parents up from a block.
  unfoldable pub ancestor : (Hash → Option Header) → ℕ → Hash → Option Hash
  ancestor known zero hash = some hash
  ancestor known (suc steps) hash = elim (known hash) [
    | none ↦ none
    | some h ↦ ancestor known steps h.parent_hash
  ]

  ancestor-missing :
      (known : Hash → Option Header) (steps : ℕ) (hash : Hash)
      → known hash ≡ none
      → ancestor known (suc steps) hash ≡ none
  unfolding ancestor
  ancestor-missing known steps hash e = rw (e, ancestor) refl

  ancestor-found :
      (known : Hash → Option Header) (steps : ℕ) (hash : Hash) (h : Header)
      → known hash ≡ some h
      → ancestor known (suc steps) hash ≡ ancestor known steps h.parent_hash
  unfolding ancestor
  ancestor-found known steps hash h e = rw (e, ancestor) refl

  abbrev pub or_zero : Option Hash → Hash
  or_zero none = 0
  or_zero (some hash) = hash

  module _ (laws : LruLaws env.headers) where
    hash_at-reached : (n : ℕ) (hash : Hash) (c : Chain env) → (hash_at n n hash c).0 ≡ ok hash
    unfolding hash_at
    hash_at-reached zero hash c = refl
    hash_at-reached (suc n) hash c = ground (arith, ==_iff (suc n) (suc n))

    hash_at-read :
        (i n : ℕ) (hash : Hash) (c : Chain env)
        → HeadersAgree env c
        → (suc n == i) ≡ false
        → (cache : _) × HeadersAgree env (record c { headers_cache = cache })
          × ((h : Header)
              → loaded env c hash ≡ some h
              → hash_at i (suc n) hash c
                ≡ hash_at i n h.parent_hash (record c { headers_cache = cache }))
          × (loaded env c hash ≡ none
              → hash_at i (suc n) hash c ≡ (ok 0, record c { headers_cache = cache }))
    unfolding hash_at
    hash_at-read i n hash c agree other =
        let (cache, e, agree') = read_header-cache env laws c hash agree in
        let c' : Chain env = record c { headers_cache = cache } in
        (
          cache,
          agree',
          λ h found.
              rw (other, hash_at)
                (>>=-ok (read_header env hash) _
                  (e ∙ ap (λ (l : Option Header). (ok l, c')) found)),
          λ missing.
              rw (other, hash_at)
                (>>=-ok (read_header env hash) _
                  (e ∙ ap (λ (l : Option Header). (ok l, c')) missing)),
        )

    -- The loop answers as the walk does: the hash that the parents lead to, or the zero hash if one
    -- of them is missing.
    hash_at-ancestor :
        (steps i n : ℕ) (hash : Hash) (c : Chain env)
        → n ≡ steps + i
        → HeadersAgree env c
        → (hash_at i n hash c).0 ≡ ok (or_zero (ancestor (loaded env c) steps hash))
    unfolding ancestor
    hash_at-ancestor zero i n hash c e agree =
        rw (subst (λ m. m ≡ i) (sym e) (omega arith)) (hash_at-reached i hash c)
    hash_at-ancestor (suc steps) i zero hash c e agree = absurd (omega arith)
    hash_at-ancestor (suc steps) i (suc n) hash c e agree =
        let (cache, agree', found, missing) =
          hash_at-read i n hash c agree (ground (arith, ==_iff (suc n) i)) in
        elim (Option-cases (loaded env c hash)) [
          | inl none_there ↦
              rw (missing none_there, ancestor-missing (loaded env c) steps hash none_there) refl
          | inr (h, there) ↦
              rw (found h there, ancestor-found (loaded env c) steps hash h there)
                (hash_at-ancestor steps i n h.parent_hash (record c { headers_cache = cache })
                  (omega (arith, e)) agree')
        ]

    hash_at-above :
        (n i : ℕ) (hash : Hash) (c : Chain env)
        → n < i
        → HeadersAgree env c
        → (hash_at i n hash c).0 ≡ ok 0
    unfolding hash_at
    hash_at-above zero i hash c above agree =
        let (cache, e, agree') = read_header-cache env laws c hash agree in
        rw (neq, hash_at) (ap (λ r. r.0) (>>=-ok (read_header env hash) (λ found. pure 0) e))
      where
        neq : (0 == i) ≡ false
        neq = ground (arith, above)
    hash_at-above (suc n) i hash c above agree =
        let (cache, agree', found, missing) =
          hash_at-read i n hash c agree (ground (arith, above)) in
        elim (Option-cases (loaded env c hash)) [
          | inl none_there ↦ rw (missing none_there) refl
          | inr (h, there) ↦ rw (found h there) (
              hash_at-above n i h.parent_hash (record c { headers_cache = cache })
                (omega (arith, above)) agree')
        ]

    -- A contract that runs under a header and asks for the hash of an earlier number gets what the
    -- parents lead to, so many steps up from the header's parent as the numbers differ, or the zero
    -- hash if one of them is missing; for the header's own number and those after it, it gets the
    -- zero hash. The header's number is not zero, and within `uint64`; the headers cache agrees with
    -- the database.
    pub get_hash_helper-ancestor :
        (header : Header) (i : ℕ) (c : Chain env)
        → HeadersAgree env c
        → 0 < header.number
        → header.number < u64_mod
        → (get_hash_helper header i c).0
          ≡ ok (
              if ltb i header.number
              then or_zero (ancestor (loaded env c) (header.number - 1 - i) header.parent_hash)
              else 0)
    unfolding get_hash_helper
    get_hash_helper-ancestor header i c agree pos bound = elim (Bool-cases (ltb i header.number)) [
      | inl below ↦ rw below (
          hash_at-ancestor (header.number - 1 - i) i ((header.number + u64_mod - 1) % u64_mod)
            header.parent_hash c (ground (arith, below, pos, bound)) agree)
      | inr above ↦ rw above (
          hash_at-above ((header.number + u64_mod - 1) % u64_mod) i header.parent_hash c
            (ground (arith, above, pos, bound)) agree)
    ]
