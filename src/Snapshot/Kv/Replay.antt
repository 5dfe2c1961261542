-- ===== src/Snapshot/Kv/Replay.antt =====
-- The key-value store records and replays what it reads as the state storage does, up to the first
-- write that it refuses.
use availproject_op_evm.Prelude.{
  ◌≡◌, refl, sym, ap, ◌∙◌, ◌⊎◌, inl, inr, Option, none, some, List, [], ◌∷◌, ok, err, >>=-eq-ok,
  ok-injective, Option-cases, if◌then◌else◌,
}
use availproject_op_evm.Prelude.Bytes.{Bytes, bytes_eq}
use availproject_op_evm.Prelude.Dict.{Dict}
use availproject_op_evm.Snapshot.{
  Storage, StorageLaws, StateStorage, begin, end_recording, apply_all, apply, put_state, get_state,
  record_change, recorded,
}
use availproject_op_evm.Snapshot.Replay.{put_all, IsRange, apply-end_recording}
use availproject_op_evm.Snapshot.Kv.{
  Kv, KvLaws, Refuses, KvStorage, set_failed, begin_kv, end_kv, set_all, apply_kv, set_kv, get_kv,
  record_kv, recorded_kv,
}

-- A store as what it reads for each key.
abbrev pub readings : Storage
readings = record {
  Store = Bytes → Option Bytes;
  put = λ k v g j. if bytes_eq k j then some v else g j;
  get = λ g j. g j;
}

pub readings-laws : StorageLaws readings
readings-laws = record { get-put = λ g k v j. refl }

module _ (kv : Kv) where
  -- What the store reads, with the recording that it keeps.
  abbrev pub as_read : KvStorage kv → StateStorage readings
  as_read bs = record { underlying = kv.get bs.db; changes = bs.changes }

  record_kv-eq :
      (k v : Bytes) (m : Option (Dict Bytes)) → record_kv kv k v m ≡ record_change readings k v m
  record_kv-eq k v none = refl
  record_kv-eq k v (some m) = refl

  pub recorded_kv-eq : (m : Option (Dict Bytes)) → recorded_kv kv m ≡ recorded readings m
  recorded_kv-eq none = refl
  recorded_kv-eq (some m) = refl

  set_kv-none :
      (k v : Bytes) (bs : KvStorage kv)
      → kv.set k v bs.db ≡ none
      → set_kv kv k v bs ≡ (err set_failed, record bs { changes = record_kv kv k v bs.changes })
  unfolding set_kv
  set_kv-none k v bs e = rw (e, set_kv) refl

  set_kv-some :
      (k v : Bytes) (bs : KvStorage kv) (d : kv.Db)
      → kv.set k v bs.db ≡ some d
      → set_kv kv k v bs ≡ (ok tt, record { db = d; changes = record_kv kv k v bs.changes })
  unfolding set_kv
  set_kv-some k v bs d e = rw (e, set_kv) refl

module _ (kv : Kv) (laws : KvLaws kv) where
  set-reads :
      (k v : Bytes) (d d' : kv.Db)
      → kv.set k v d ≡ some d'
      → kv.get d' ≡ readings.put k v (kv.get d)
  set-reads k v d d' e = λ i j. laws.get-set d d' k v j e i

  -- A write that succeeds is a write of the state storage.
  pub set_kv-ok :
      (k v : Bytes) (bs bs' : KvStorage kv)
      → set_kv kv k v bs ≡ (ok tt, bs')
      → as_read kv bs' ≡ put_state readings k v (as_read kv bs)
  unfolding put_state
  set_kv-ok k v bs bs' e = elim (Option-cases (kv.set k v bs.db)) [
    | inl refused ↦ cc (sym (set_kv-none kv k v bs refused) ∙ e)
    | inr (d, took) ↦ ap (λ r. as_read kv r.1) (sym e ∙ set_kv-some kv k v bs d took) ∙ λ i.
        record {
          underlying = set-reads k v bs.db d took i;
          changes = record_kv-eq kv k v bs.changes i;
        }
  ]

  -- The loop of `Apply` writes what that of the state storage does, or meets a write that the store
  -- refuses.
  set_all-apply_all :
      (ks vs : List Bytes) (d : kv.Db) (g : Bytes → Option Bytes)
      → apply_all readings ks vs (kv.get d) ≡ ok g
      → ((d' : kv.Db) × (set_all kv ks vs d ≡ (ok tt, d')) × (kv.get d' ≡ g))
        ⊎ ((d' : kv.Db) × (set_all kv ks vs d ≡ (err set_failed, d')) × Refuses kv)
  unfolding set_all apply_all
  set_all-apply_all [] vs d g e = inl (d, refl, ok-injective e)
  set_all-apply_all (k ∷ ks) [] d g e = cc e
  set_all-apply_all (k ∷ ks) (v ∷ vs) d g e = elim (Option-cases (kv.set k v d)) [
    | inl refused ↦ inr (d, rw (refused, set_all) refl, (k, v, d, refused))
    | inr (d', took) ↦
        let rest =
          set_all-apply_all ks vs d' g
            (ap (λ r. apply_all readings ks vs r) (set-reads k v d d' took) ∙ e) in
        elim rest [
          | inl (d'', done, reads) ↦ inl (d'', rw (took, set_all) done, reads)
          | inr (d'', failed, refuses) ↦ inr (d'', rw (took, set_all) failed, refuses)
        ]
  ]

  -- What `Apply` of the state storage does, `Apply` of the key-value store does, or it meets a write
  -- that the store refuses.
  pub apply_kv-apply :
      (ks vs : List Bytes) (bs : KvStorage kv) (ss : StateStorage readings)
      → apply readings (record { keys = ks; values = vs }) (as_read kv bs) ≡ ok ss
      → ((bs' : KvStorage kv) × (apply_kv kv (record { keys = ks; values = vs }) bs ≡ (ok tt, bs'))
          × (kv.get bs'.db ≡ ss.underlying))
        ⊎ ((bs' : KvStorage kv) × (apply_kv kv (record { keys = ks; values = vs }) bs
              ≡ (err set_failed, bs'))
            × Refuses kv)
  unfolding apply apply_kv
  apply_kv-apply ks vs bs ss e =
      let (g, done, rest) = >>=-eq-ok (apply_all readings ks vs (kv.get bs.db)) _ e in
      elim (set_all-apply_all ks vs bs.db g done) [
        | inl (d, run, reads) ↦ inl (
          record bs { db = d },
          rw run refl,
          reads ∙ ap (λ (t : StateStorage readings). t.underlying) (ok-injective rest),
        )
        | inr (d, run, refuses) ↦ inr (record bs { db = d }, rw run refl, refuses)
      ]

  -- A replica that read like the original when recording began applies the snapshot of the writes
  -- that followed: it reads like the original again, or has met a write that its store refuses.
  pub apply_kv-end_kv :
      (range : Dict Bytes → List (Bytes × Bytes)) (original replica ended : KvStorage kv)
      (writes : List (Bytes × Bytes))
      → IsRange range
      → ((k : Bytes) → get_kv kv replica k ≡ get_kv kv original k)
      → as_read kv ended ≡ put_all readings readings-laws writes (as_read kv (begin_kv kv original))
      → ((replica' : KvStorage kv) × (apply_kv kv (end_kv kv range ended).0 replica
            ≡ (ok tt, replica'))
          × ((k : Bytes) → get_kv kv replica' k ≡ get_kv kv (end_kv kv range ended).1 k))
        ⊎ ((replica' : KvStorage kv) × (apply_kv kv (end_kv kv range ended).0 replica
              ≡ (err set_failed, replica'))
            × Refuses kv)
  unfolding end_kv begin_kv get_kv end_recording begin get_state
  apply_kv-end_kv range original replica ended writes ranges same ran =
      let (ss, e, reads, over) =
        apply-end_recording readings readings-laws range (as_read kv original) (as_read kv replica)
          writes ranges same in
      let changed =
        recorded_kv-eq kv ended.changes
        ∙ ap (λ (t : StateStorage readings). recorded readings t.changes) ran in
      elim (apply_kv-apply _ _ replica ss e) [
        | inl (replica', done, got) ↦ inl (
          replica',
          rw changed done,
          λ k.
              (λ i. got i k)
              ∙ reads k
              ∙ ap (λ (t : StateStorage readings). t.underlying k) (sym ran),
        )
        | inr (replica', failed, refuses) ↦ inr (replica', rw changed failed, refuses)
      ]
