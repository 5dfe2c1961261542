-- ===== src/Snapshot/Kv.antt =====
-- pkg/snapshot/blockchain.go: the key-value store under the chain's database, which records what is
-- written to it while a block is produced; blockchain_inmem.go, one store that it stands on.
pub mod Replay
use availproject_op_evm.Prelude.{
  ℕ, ◌≡◌, Option, none, some, List, [], ◌∷◌, map, Outcome, ok, err, panic, ◌>>=◌, or_fail,
  if◌then◌else◌,
}
use availproject_op_evm.Prelude.Bytes.{Bytes, bytes_eq}
use availproject_op_evm.Prelude.Dict.{Dict, lookup, insert}

-- polygon-edge's `storage.KV`: a read finds a value or not; a write may fail.
pub record Kv : Type 1 where
  pub Db : Type 0
  pub set : Bytes → Bytes → Db → Option Db
  pub get : Db → Bytes → Option Bytes

module _ (kv : Kv) where
  open kv use {Db, set, get}

  -- A value that was set is read back, and no other key changes.
  pub record KvLaws : Type 0 where
    pub get-set :
        (d d' : Db) (k v j : Bytes)
        → set k v d ≡ some d'
        → get d' j ≡ (if bytes_eq k j then some v else get d j)

  -- The store refuses some write.
  abbrev pub Refuses : Type 0
  Refuses = (k v : Bytes) × (d : Db) × (set k v d ≡ none)

-- `memoryKV`, over the hexadecimal form of the keys: a map.
module _ (encode_hex : Bytes → Bytes) where
  abbrev pub memory_set : Bytes → Bytes → Dict Bytes → Option (Dict Bytes)
  memory_set p v m = some (insert (encode_hex p) v m)

  abbrev pub memory_get : Dict Bytes → Bytes → Option Bytes
  memory_get m p = lookup (encode_hex p) m

  abbrev pub memory_kv : Kv
  memory_kv = record { Db = Dict Bytes; set = memory_set; get = memory_get }

-- `BlockchainSnapshot`.
pub record BlockchainSnapshot : Type 0 where
  pub keys : List Bytes
  pub values : List Bytes

pub data Error : Type 0 where
  set_failed : Error

module _ (kv : Kv) where
  open kv use {Db, set, get}

  -- `blockchainKVStorage`. `none` is the nil map, while nothing is recorded.
  pub record KvStorage : Type 0 where
    pub db : Db
    pub changes : Option (Dict Bytes)

  -- `Begin`.
  unfoldable pub begin_kv : KvStorage → KvStorage
  begin_kv bs = record bs { changes = some [] }

  abbrev pub recorded_kv : Option (Dict Bytes) → Dict Bytes
  recorded_kv none = []
  recorded_kv (some m) = m

  -- `End`, over the order in which Go ranges over the map.
  unfoldable pub end_kv :
      (Dict Bytes → List (Bytes × Bytes)) → KvStorage → BlockchainSnapshot × KvStorage
  end_kv range bs = (
    record {
      keys = map (λ e. e.0) (range (recorded_kv bs.changes));
      values = map (λ e. e.1) (range (recorded_kv bs.changes));
    },
    record bs { changes = none },
  )

  -- The loop of `Apply`: what was set before an error stays; a key without a value is an index out
  -- of range.
  pub set_all : List Bytes → List Bytes → Db → Outcome Error (Unit {0}) × Db
  set_all [] values d = (ok tt, d)
  set_all (k ∷ ks) [] d = (panic, d)
  set_all (k ∷ ks) (v ∷ values) d = elim (set k v d) [
    | none ↦ (err set_failed, d)
    | some d' ↦ set_all ks values d'
  ]

  -- `Apply`, which writes past the recording.
  pub apply_kv : BlockchainSnapshot → KvStorage → Outcome Error (Unit {0}) × KvStorage
  unfolding set_all
  apply_kv snapshot bs =
      let (r, d) = set_all snapshot.keys snapshot.values bs.db in (r, record bs { db = d })

  abbrev pub record_kv : Bytes → Bytes → Option (Dict Bytes) → Option (Dict Bytes)
  record_kv p v none = none
  record_kv p v (some m) = some (insert p v m)

  -- `Set`: the change is recorded before the store is asked, and stays recorded if the store fails.
  unfoldable pub set_kv : Bytes → Bytes → KvStorage → Outcome Error (Unit {0}) × KvStorage
  set_kv p v bs =
      let changes = record_kv p v bs.changes in
      elim (set p v bs.db) [
        | none ↦ (err set_failed, record bs { changes = changes })
        | some d ↦ (ok tt, record { db = d; changes = changes })
      ]

  -- `Get`.
  pub get_kv : KvStorage → Bytes → Option Bytes
  get_kv bs p = get bs.db p
