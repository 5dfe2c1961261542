-- ===== src/Snapshot/Both.antt =====
-- pkg/snapshot/snapshot.go: the changes of the chain's database and of the state, recorded together;
-- and the message of distributor.go in which they go to the other sequencers.
pub mod Sent
use availproject_op_evm.Prelude.{
  ℕ, Option, none, some, List, [], ◌∷◌, map, Outcome, ok, err, panic, ◌>>=◌,
}
use availproject_op_evm.Prelude.Bytes.{Bytes}
use availproject_op_evm.Prelude.Dict.{Dict}
use availproject_op_evm.Chain.Types.{Hash}
use availproject_op_evm.Snapshot.{
  Storage, StateSnapshot, StateStorage, begin, end_recording, apply, copy_pairs,
}
use availproject_op_evm.Snapshot.Kv.{
  Kv, BlockchainSnapshot, KvStorage, Error, begin_kv, end_kv, apply_kv,
}

-- `Snapshot`: the three fields of metadata are set by the producer of the block.
pub record Snapshot : Type 0 where
  pub block_number : ℕ
  pub block_hash : Hash
  pub state_root : Hash
  pub blockchain_snapshot : BlockchainSnapshot
  pub state_snapshot : StateSnapshot

module _ (kv : Kv) (s : Storage) where
  -- `snapshotter`.
  pub record Snapshotter : Type 0 where
    pub chain : KvStorage kv
    pub state : StateStorage s

  -- `Begin`.
  unfoldable pub begin_both : Snapshotter → Snapshotter
  begin_both n = record { chain = begin_kv kv n.chain; state = begin s n.state }

  -- `End`.
  pub end_both : (Dict Bytes → List (Bytes × Bytes)) → Snapshotter → Snapshot × Snapshotter
  end_both range n =
      let (chain_snapshot, chain) = end_kv kv range n.chain in
      let (state_snapshot, state) = end_recording s range n.state in
      (
        record {
          block_number = 0;
          block_hash = 0;
          state_root = 0;
          blockchain_snapshot = chain_snapshot;
          state_snapshot = state_snapshot;
        },
        record { chain = chain; state = state },
      )

  abbrev pub apply_state :
      StateSnapshot
      → KvStorage kv
      → Outcome (Unit {0}) (StateStorage s)
      → StateStorage s
      → Outcome Error (Unit {0}) × Snapshotter
  apply_state snapshot chain (ok state) old = (ok tt, record { chain = chain; state = state })
  apply_state snapshot chain (err e) old = (panic, record { chain = chain; state = old })
  apply_state snapshot chain panic old = (panic, record { chain = chain; state = old })

  -- `Apply`: the chain first, then the state.
  pub apply_both : Snapshot → Snapshotter → Outcome Error (Unit {0}) × Snapshotter
  apply_both snapshot n =
      let (r, chain) = apply_kv kv snapshot.blockchain_snapshot n.chain in
      elim r [
        | ok u ↦
            apply_state snapshot.state_snapshot chain (apply s snapshot.state_snapshot n.state)
              n.state
        | err e ↦ (err e, record n { chain = chain })
        | panic ↦ (panic, record n { chain = chain })
      ]

-- `proto.KeyValuePairs` and `proto.StateSnapshot`, whose pointers may be nil.
pub record KeyValuePairs : Type 0 where
  pub keys : List Bytes
  pub values : List Bytes

pub record Message : Type 0 where
  pub block_number : ℕ
  pub block_hash : Bytes
  pub state_root : Bytes
  pub blockchain_snapshot : Option KeyValuePairs
  pub state_snapshot : Option KeyValuePairs

module _ (hash_bytes : Hash → Bytes) (bytes_to_hash : Bytes → Hash) where
  -- The message of `Send`.
  unfoldable pub send : Snapshot → Message
  send s = record {
    block_number = s.block_number;
    block_hash = hash_bytes s.block_hash;
    state_root = hash_bytes s.state_root;
    blockchain_snapshot =
        some (record { keys = s.blockchain_snapshot.keys; values = s.blockchain_snapshot.values });
    state_snapshot =
        some (record { keys = s.state_snapshot.keys; values = s.state_snapshot.values });
  }

  abbrev pub received : Message → List (Bytes × Bytes) → List (Bytes × Bytes) → Option Snapshot
  received raw chain state = some (record {
    block_number = raw.block_number;
    block_hash = bytes_to_hash raw.block_hash;
    state_root = bytes_to_hash raw.state_root;
    blockchain_snapshot = record { keys = map (λ e. e.0) chain; values = map (λ e. e.1) chain };
    state_snapshot = record { keys = map (λ e. e.0) state; values = map (λ e. e.1) state };
  })

  abbrev pub receive_pairs :
      Message → KeyValuePairs → KeyValuePairs → Outcome (Unit {0}) (Option Snapshot)
  receive_pairs raw chain state = do
    chain_pairs ← copy_pairs chain.keys chain.values
    state_pairs ← copy_pairs state.keys state.values
    ok (received raw chain_pairs state_pairs)

  -- `handleIncomingSnapshot`: a message without one of its parts is dropped; a key without a value
  -- is an index out of range.
  unfoldable pub handle_incoming_snapshot : Message → Outcome (Unit {0}) (Option Snapshot)
  handle_incoming_snapshot raw = elim (raw.blockchain_snapshot) [
    | none ↦ ok none
    | some chain ↦ elim (raw.state_snapshot) [
      | none ↦ ok none
      | some state ↦ receive_pairs raw chain state
    ]
  ]
