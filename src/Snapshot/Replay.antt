-- ===== src/Snapshot/Replay.antt =====
-- A snapshot carries what was written between `begin` and `end_recording`: applied to a replica, it
-- makes the replica read like the original.
use availproject_op_evm.Prelude.{
  ◌≡◌, refl, none, some, List, [], ◌∷◌, map, ok, panic, length, ◌<◌, arith,
}
use availproject_op_evm.Prelude.Bytes.{Bytes, bytes_eq_iff}
use availproject_op_evm.Prelude.Dict.{
  Dict, lookup, insert, lookup-insert, IsMap, insert-IsMap, lookup_free,
}
use availproject_op_evm.Snapshot.{
  Storage, StorageLaws, StateStorage, begin, end_recording, apply_all, apply, put_state, get_state,
}

module _ (s : Storage) (laws : StorageLaws s) where
  -- A run of writes.
  unfoldable pub put_all : List (Bytes × Bytes) → StateStorage s → StateStorage s
  put_all [] ss = ss
  put_all ((k, v) ∷ writes) ss = put_all writes (put_state s k v ss)

  -- The recorded changes say how the store differs from what it was.
  pub record Records (origin : s.Store) (ss : StateStorage s) (changes : Dict Bytes) : Type 0 where
    pub recording : ss.changes ≡ some changes
    pub is_map : IsMap changes
    pub differs :
        (k : Bytes)
        → s.get ss.underlying k
          ≡ elim (lookup k changes) [ none ↦ s.get origin k | some v ↦ some v ]

  put_state-Records :
      (origin : s.Store) (ss : StateStorage s) (changes : Dict Bytes) (k v : Bytes)
      → Records origin ss changes
      → Records origin (put_state s k v ss) (insert k v changes)
  unfolding put_state
  put_state-Records origin ss changes k v r = record {
    recording = rw r.recording;
    is_map = insert-IsMap k v changes r.is_map;
    differs = λ j.
        ground (arith, laws.get-put ss.underlying k v j, lookup-insert k j v changes, r.differs j);
  }

  put_all-Records :
      (origin : s.Store) (writes : List (Bytes × Bytes)) (ss : StateStorage s)
      (changes : Dict Bytes)
      → Records origin ss changes
      → (changes' : Dict Bytes) × Records origin (put_all writes ss) changes'
  unfolding put_all
  put_all-Records origin [] ss changes r = (changes, r)
  put_all-Records origin ((k, v) ∷ writes) ss changes r =
      put_all-Records origin writes (put_state s k v ss) (insert k v changes)
        (put_state-Records origin ss changes k v r)

  -- Applying a list of distinct entries makes a store read as the list says, and elsewhere as before.
  apply_all-IsMap :
      (entries : Dict Bytes) (st : s.Store)
      → IsMap entries
      → (st' : s.Store) × (apply_all s (map (λ e. e.0) entries) (map (λ e. e.1) entries) st
          ≡ ok st')
        × ((j : Bytes)
            → s.get st' j ≡ elim (lookup j entries) [ none ↦ s.get st j | some v ↦ some v ])
  unfolding apply_all lookup
  apply_all-IsMap [] st m = (st, refl, λ j. refl)
  apply_all-IsMap ((k, v) ∷ entries) st m =
      let (st', e, reads) = apply_all-IsMap entries (s.put k v st) m.1 in
      (
        st',
        e,
        λ j.
            ground
              (arith, reads j, laws.get-put st k v j, bytes_eq_iff k j, lookup_free k entries m.0),
      )

-- Go's `range` over a map gives each entry once, in an open order.
abbrev pub IsRange : (Dict Bytes → List (Bytes × Bytes)) → Type 0
IsRange range =
    (m : Dict Bytes) → IsMap m → IsMap (range m) × ((j : Bytes) → lookup j (range m) ≡ lookup j m)

module _ (s : Storage) (laws : StorageLaws s) where
  begin-Records : (ss : StateStorage s) → Records s laws ss.underlying (begin s ss) []
  unfolding begin lookup
  begin-Records ss = record { recording = refl; is_map = tt; differs = λ k. refl }

  -- A replica that read like the original when recording began, and applies the snapshot of the
  -- writes that followed, reads like the original again; the snapshot applies without a panic, and
  -- recording has ended.
  pub apply-end_recording :
      (range : Dict Bytes → List (Bytes × Bytes)) (original replica : StateStorage s)
      (writes : List (Bytes × Bytes))
      → IsRange range
      → ((k : Bytes) → get_state s replica k ≡ get_state s original k)
      → let (snapshot, ended) = end_recording s range (put_all s laws writes (begin s original)) in
        (replica' : StateStorage s) × (apply s snapshot replica ≡ ok replica')
        × ((k : Bytes) → get_state s replica' k ≡ get_state s ended k)
        × (ended.changes ≡ none)
  unfolding end_recording apply get_state
  apply-end_recording range original replica writes ranges same =
      let (changes, r) =
        put_all-Records s laws original.underlying writes (begin s original) []
          (begin-Records original) in
      let (once, listed) = ranges changes r.is_map in
      let (st', e, reads) = apply_all-IsMap s laws (range changes) replica.underlying once in
      (
        record replica { underlying = st' },
        rw r.recording (rw e),
        λ k. ground (arith, reads k, listed k, same k, r.differs k),
        refl,
      )

  apply_all_short :
      (keys values : List Bytes) (st : s.Store)
      → length values < length keys
      → apply_all s keys values st ≡ panic
  unfolding apply_all
  apply_all_short [] values st h = elim h [ ]
  apply_all_short (k ∷ keys) [] st h = refl
  apply_all_short (k ∷ keys) (v ∷ values) st h =
      apply_all_short keys values (s.put k v st) (omega arith)

  -- A snapshot with more keys than values stops the program of the node that applies it.
  pub apply_short :
      (keys values : List Bytes) (ss : StateStorage s)
      → length values < length keys
      → apply s (record { keys = keys; values = values }) ss ≡ panic
  unfolding apply
  apply_short keys values ss h = rw (apply_all_short keys values ss.underlying h)
