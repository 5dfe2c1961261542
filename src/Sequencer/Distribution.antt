-- ===== src/Sequencer/Distribution.antt =====
-- consensus/avail/sequencer.go: what `writeBlock` sends to the other sequencers once its block is
-- written, and `processStorageSnapshot`, by which they take it.
pub mod Continued
use availproject_op_evm.Prelude.{
  ℕ, ◌+◌, ◌%◌, Option, none, some, List, Outcome, ok, err, panic, ◌==◌, if◌then◌else◌,
}
use availproject_op_evm.Prelude.Bytes.{Bytes}
use availproject_op_evm.Prelude.Dict.{Dict}
use availproject_op_evm.Chain.Types
use availproject_op_evm.Chain.Types.{Hash, Header, Block, u64_mod}
use availproject_op_evm.Snapshot.{Storage}
use availproject_op_evm.Snapshot.Kv.{Kv}
use availproject_op_evm.Snapshot.Both.{Snapshot, Snapshotter, Message, end_both, apply_both, send}

-- The snapshot with the metadata of the block.
abbrev pub with_metadata : Header → Snapshot → Snapshot
with_metadata h snapshot = record snapshot {
  block_number = h.number;
  block_hash = h.hash;
  state_root = h.state_root;
}

module _ (kv : Kv) (s : Storage) where
  -- The end of `writeBlock`: the message that it publishes.
  unfoldable pub distribute :
      (Hash → Bytes)
      → (Bytes → Hash)
      → (Dict Bytes → List (Bytes × Bytes))
      → Header
      → Snapshotter kv s
      → Message × Snapshotter kv s
  distribute hash_bytes bytes_to_hash range h n =
      let (snapshot, n') = end_both kv s range n in
      (send hash_bytes bytes_to_hash (with_metadata h snapshot), n')

  -- A sequencer that receives: its two storages, and the head of its chain.
  pub record Peer : Type 0 where
    pub storages : Snapshotter kv s
    pub head : Header

  -- What follows an `Apply`, whose error is only logged: the chain loads its head again.
  abbrev pub reload :
      (Peer → Outcome Types.Error (Unit {0}) × Peer)
      → Peer
      → {E : Type 0} → Outcome E (Unit {0}) × Snapshotter kv s
      → Outcome Types.Error (Unit {0}) × Peer
  reload compute_genesis p (ok u, n) = compute_genesis (record p { storages = n })
  reload compute_genesis p (err e, n) = compute_genesis (record p { storages = n })
  reload compute_genesis p (panic, n) = (panic, record p { storages = n })

  -- `processStorageSnapshot`: a snapshot that does not continue the chain is passed over. The
  -- comparisons at the end are only logged.
  unfoldable pub process_storage_snapshot :
      (Peer → Outcome Types.Error (Unit {0}) × Peer)
      → Snapshot
      → Peer
      → Outcome Types.Error (Unit {0}) × Peer
  process_storage_snapshot compute_genesis snapshot p =
      if (p.head.number + 1) % u64_mod == snapshot.block_number
      then reload compute_genesis p (apply_both kv s snapshot p.storages)
      else (ok tt, p)
