-- ===== src/Snapshot.antt =====
-- pkg/snapshot/state.go and distributor.go: the state storage that records what is written to it,
-- so that a producer sends the changes of a block to its peers.
pub mod Replay
pub mod Kv
pub mod Both
use availproject_op_evm.Prelude.{
  ℕ, ◌≡◌, ◌^◌, Option, none, some, List, [], ◌∷◌, ◌++◌, map, Outcome, ok, panic, ◌>>=◌,
  if◌then◌else◌,
}
use availproject_op_evm.Prelude.Bytes.{Bytes, codes, bytes_eq}
use availproject_op_evm.Prelude.Dict.{Dict, insert}

-- polygon-edge's `itrie.Storage`: a key-value store whose writes do not fail.
pub record Storage : Type 1 where
  pub Store : Type 0
  pub put : Bytes → Bytes → Store → Store
  pub get : Store → Bytes → Option Bytes

module _ (s : Storage) where
  open s use {Store, put, get}

  -- A value is read back after it was put, and no other key changes.
  pub record StorageLaws : Type 0 where
    pub get-put :
        (st : Store) (k v j : Bytes)
        → get (put k v st) j ≡ (if bytes_eq k j then some v else get st j)

-- `StateStorageSnapshot`.
pub record StateSnapshot : Type 0 where
  pub keys : List Bytes
  pub values : List Bytes

module _ (s : Storage) where
  open s use {Store, put, get}

  -- `StateStorage`. `none` is the nil map, while nothing is recorded.
  pub record StateStorage : Type 0 where
    pub underlying : Store
    pub changes : Option (Dict Bytes)

  pub begin : StateStorage → StateStorage
  begin ss = record ss { changes = some [] }

  abbrev pub recorded : Option (Dict Bytes) → Dict Bytes
  recorded none = []
  recorded (some m) = m

  -- `End`, over the order in which Go ranges over the map.
  unfoldable pub end_recording :
      (Dict Bytes → List (Bytes × Bytes)) → StateStorage → StateSnapshot × StateStorage
  end_recording range ss = (
    record {
      keys = map (λ e. e.0) (range (recorded ss.changes));
      values = map (λ e. e.1) (range (recorded ss.changes));
    },
    record ss { changes = none },
  )

  -- The loop of `Apply` over the two slices; a key without a value is an index out of range.
  pub apply_all : List Bytes → List Bytes → Store → Outcome (Unit {0}) Store
  apply_all [] values st = ok st
  apply_all (k ∷ ks) [] st = panic
  apply_all (k ∷ ks) (v ∷ values) st = apply_all ks values (put k v st)

  pub apply : StateSnapshot → StateStorage → Outcome (Unit {0}) StateStorage
  unfolding apply_all
  apply snapshot ss = do
    st ← apply_all snapshot.keys snapshot.values ss.underlying
    ok (record ss { underlying = st })

  abbrev pub record_change : Bytes → Bytes → Option (Dict Bytes) → Option (Dict Bytes)
  record_change k v none = none
  record_change k v (some m) = some (insert k v m)

  -- `Put`, and `KVBatch.Put`, which passes it on.
  pub put_state : Bytes → Bytes → StateStorage → StateStorage
  put_state k v ss = record {
    underlying = put k v ss.underlying;
    changes = record_change k v ss.changes;
  }

  pub get_state : StateStorage → Bytes → Option Bytes
  get_state ss k = get ss.underlying k

  abbrev pub code_prefix : Bytes
  code_prefix = codes "code"

  -- `SetCode`, over the bytes of the hash.
  pub set_code : Bytes → Bytes → StateStorage → StateStorage
  unfolding put_state
  set_code hash_bytes code ss = put_state (code_prefix ++ hash_bytes) code ss

-- A gossiped message, before it is checked: `handleIncomingSnapshot` copies a value for each key.
pub copy_pairs : List Bytes → List Bytes → Outcome (Unit {0}) (List (Bytes × Bytes))
copy_pairs [] values = ok []
copy_pairs (k ∷ ks) [] = panic
copy_pairs (k ∷ ks) (v ∷ values) = copy_pairs ks values >>= λ rest. ok ((k, v) ∷ rest)
