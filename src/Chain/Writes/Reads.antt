-- ===== src/Chain/Writes/Reads.antt =====
-- The reads through the caches answer as the database does.
use availproject_op_evm.Prelude.{
  ℕ, ◌≡◌, inl, inr, refl, sym, Option, none, some, Option-cases, ok, arith,
}
use availproject_op_evm.Chain.Types.{Hash, Header}
use availproject_op_evm.Chain.Store.{Storage, LruLaws}
use availproject_op_evm.Chain.Writes.{
  Env, Chain, read_header, read_total_difficulty, get_header_by_number, write,
}

module _ (env : Env) where
  open env use {storage, headers, difficulties, compute_hash}

  -- A write that the database takes.
  pub write-ok :
      (f : Storage.Db storage → Option (Storage.Db storage)) (s : Chain env) {d : _}
      → f s.db ≡ some d
      → write env f s ≡ (ok tt, record s { db = d })
  write-ok f s e = rw (e, write) refl

  -- What `readHeader` loads where the cache has no entry.
  abbrev pub loaded : Chain env → Hash → Option Header
  loaded s k = elim ((storage.view s.db).header k) [ none ↦ none | some h ↦ some (compute_hash h) ]

  -- The headers cache holds nothing but what would be loaded.
  abbrev pub HeadersAgree : Chain env → Type 0
  HeadersAgree s =
      (k : Hash) (h : Header) → headers.find k s.headers_cache ≡ some h → loaded s k ≡ some h

  abbrev pub DifficultiesAgree : Chain env → Type 0
  DifficultiesAgree s =
      (k : Hash) (td : ℕ)
      → difficulties.find k s.difficulty_cache ≡ some td
      → (storage.view s.db).difficulty k ≡ some td

  -- If the headers cache agrees with the database, `readHeader` changes nothing but that cache.
  pub read_header-cache :
      LruLaws headers
      → (s : Chain env) (k : Hash) → HeadersAgree s
      → (cache : _) × (read_header env k s ≡ (ok (loaded s k), record s { headers_cache = cache }))
        × HeadersAgree (record s { headers_cache = cache })
  unfolding read_header
  read_header-cache laws s k agree = elim (Option-cases (headers.find k s.headers_cache)) [
    | inr (h, hit) ↦ (
      headers.touch k s.headers_cache,
      ground (arith, agree k h, hit),
      λ j u found. agree j u (rw (sym (laws.find-touch k j s.headers_cache)) found),
    )
    | inl miss ↦ elim (Option-cases ((storage.view s.db).header k)) [
      | inl missing ↦ (s.headers_cache, ground (arith, miss, missing), agree)
      | inr (h, stored) ↦ (
        headers.add k (compute_hash h) s.headers_cache,
        ground (arith, miss, stored),
        λ j u found.
            ground (arith, stored, agree j u, laws.find-add k j (compute_hash h) u s.headers_cache),
      )
    ]
  ]

  -- If the headers cache agrees with the database, `readHeader` answers what the database holds,
  -- with the hash computed again, whether it hits the cache or not; it writes nothing to the
  -- database, and the cache still agrees with it.
  pub read_header-loaded :
      LruLaws headers
      → (s : Chain env) (k : Hash) → HeadersAgree s
      → ((read_header env k s).0 ≡ ok (loaded s k))
        × ((read_header env k s).1.db ≡ s.db)
        × HeadersAgree (read_header env k s).1
  read_header-loaded laws s k agree =
      let (cache, e, agree') = read_header-cache laws s k agree in rw e (refl, refl, agree')

  -- So does a read by number, whatever it finds.
  pub get_header_by_number-cache :
      LruLaws headers
      → (s : Chain env) (n : ℕ) → HeadersAgree s
      → (header : _) × (cache : _) × (get_header_by_number env n s
          ≡ (ok header, record s { headers_cache = cache }))
        × HeadersAgree (record s { headers_cache = cache })
  unfolding get_header_by_number
  get_header_by_number-cache laws s n agree =
      elim (Option-cases ((storage.view s.db).canonical n)) [
        | inl missing ↦ (none, s.headers_cache, ground (arith, missing), agree)
        | inr (k, named) ↦
            let (cache, e, agree') = read_header-cache laws s k agree in
            (loaded s k, cache, rw (named, get_header_by_number) e, agree')
      ]

  -- If the difficulty cache agrees with the database, `readTotalDifficulty` answers what the
  -- database holds and changes nothing but that cache.
  pub read_total_difficulty-stored :
      (s : Chain env) (k : Hash)
      → DifficultiesAgree s
      → (cache : _) × (read_total_difficulty env k s
          ≡ (ok ((storage.view s.db).difficulty k), record s { difficulty_cache = cache }))
  unfolding read_total_difficulty
  read_total_difficulty-stored s k agree =
      elim (Option-cases (difficulties.find k s.difficulty_cache)) [
        | inr (td, hit) ↦ (difficulties.touch k s.difficulty_cache, ground (arith, agree k td))
        | inl miss ↦ elim (Option-cases ((storage.view s.db).difficulty k)) [
          | inl missing ↦ (s.difficulty_cache, ground (arith, miss, missing))
          | inr (td, stored) ↦
              (difficulties.add k td s.difficulty_cache, ground (arith, miss, stored))
        ]
      ]
