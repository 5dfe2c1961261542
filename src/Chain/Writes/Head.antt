-- ===== src/Chain/Writes/Head.antt =====
-- The fast path of `writeHeaderImpl`: a header on top of the head.
use availproject_op_evm.Prelude.{
  ℕ, ◌+◌, ◌≡◌, refl, ◌∙◌, true, [], ◌∷◌, ◌++◌, some, ok, arith, ◌==◌, ==_refl,
}
use availproject_op_evm.Chain.Types.{Header, difficulty_not_found}
use availproject_op_evm.Chain.Monad.{◌>>=◌, ◌>>◌, or_error, >>=-ok}
use availproject_op_evm.Chain.Store.{Storage, StorageLaws}
use availproject_op_evm.Chain.Writes.{
  Env, Chain, write, set_kind, add_new_header, set_difficulty, set_current_header, head_event,
  write_canonical, read_total_difficulty, write_canonical_header, write_header_impl,
}
use availproject_op_evm.Chain.Writes.Reads.{
  DifficultiesAgree, read_total_difficulty-stored, write-ok,
}

module _ (env : Env) where
  open env use {storage}

  -- The chain after a header of that total difficulty was written on top of it.
  abbrev pub on_top : Chain env → Header → ℕ → Storage.Db storage → Chain env
  on_top s h td d = record s {
    db = d;
    current_header = h;
    current_difficulty = td;
    event = record s.event {
      kind = head_event;
      new_chain = s.event.new_chain ++ (h ∷ []);
      difficulty = some td;
    };
  }

  write_canonical-on_top :
      (s : Chain env) (h : Header) (td : ℕ) (d : _)
      → storage.write_canonical_header h td s.db ≡ some d
      → write_canonical env h td s ≡ (ok tt, on_top s h td d)
  unfolding write_canonical set_current_header
  write_canonical-on_top s h td d written =
      >>=-ok (write env (storage.write_canonical_header h td))
        (λ u.
          set_kind env head_event
          >> add_new_header env h
          >> set_difficulty env td
          >> set_current_header env h td)
        (write-ok env (storage.write_canonical_header h td) s written)

  -- What `writeHeaderImpl` leaves after a header whose parent is the head.
  pub write_header_impl-on_top :
      (fuel : ℕ) (s : Chain env) (h : Header) (parent_td : ℕ) (d : _)
      → DifficultiesAgree env s
      → h.parent_hash ≡ s.current_header.hash
      → (storage.view s.db).difficulty h.parent_hash ≡ some parent_td
      → storage.write_canonical_header h (parent_td + h.difficulty) s.db ≡ some d
      → (cache : _) × (write_header_impl env fuel h s
          ≡ (ok tt, on_top (record s { difficulty_cache = cache }) h (parent_td + h.difficulty) d))
  unfolding write_header_impl write_canonical_header
  write_header_impl-on_top fuel s h parent_td d agree on_head stored written =
      let (cache, read) = read_total_difficulty-stored env s h.parent_hash agree in
      let test : (h.parent_hash == s.current_header.hash) ≡ true =
        rw on_head (==_refl s.current_header.hash) in
      (
        cache,
        rw (test, write_header_impl)
            (>>=-ok (read_total_difficulty env h.parent_hash)
                (λ r. or_error r difficulty_not_found >>= λ td.
                  write_canonical env h (td + h.difficulty))
                read
              ∙ rw stored (write_canonical-on_top _ h (parent_td + h.difficulty) d written)),
      )

  -- A header whose parent is the head becomes the head if the difficulty cache agrees with the
  -- database, the parent's total difficulty is stored and the database takes the write: the head's
  -- difficulty is the parent's and its own, and the database has the header, its difficulty, its
  -- hash under its number, and it as the head.
  pub write_header_impl-extends :
      StorageLaws storage
      → (fuel : ℕ) (s : Chain env) (h : Header) (parent_td : ℕ) (d : _) → DifficultiesAgree env s
      → h.parent_hash ≡ s.current_header.hash
      → (storage.view s.db).difficulty h.parent_hash ≡ some parent_td
      → storage.write_canonical_header h (parent_td + h.difficulty) s.db ≡ some d
      → (s' : Chain env) × (write_header_impl env fuel h s ≡ (ok tt, s'))
        × (s'.current_header ≡ h)
        × (s'.current_difficulty ≡ parent_td + h.difficulty)
        × ((storage.view s'.db).header h.hash ≡ some h)
        × ((storage.view s'.db).difficulty h.hash ≡ some (parent_td + h.difficulty))
        × ((storage.view s'.db).canonical h.number ≡ some h.hash)
        × ((storage.view s'.db).head_hash ≡ some h.hash)
        × ((storage.view s'.db).head_number ≡ some h.number)
  write_header_impl-extends laws fuel s h parent_td d agree on_head stored written =
      let (cache, e) = write_header_impl-on_top fuel s h parent_td d agree on_head stored written in
      let law = laws.canonical_header_law h (parent_td + h.difficulty) s.db d written in
      (
        on_top (record s { difficulty_cache = cache }) h (parent_td + h.difficulty) d,
        e,
        refl,
        refl,
        rw law (ground (arith, ==_refl h.hash)),
        rw law (ground (arith, ==_refl h.hash)),
        rw law (ground (arith, ==_refl h.number)),
        rw law refl,
        rw law refl,
      )
