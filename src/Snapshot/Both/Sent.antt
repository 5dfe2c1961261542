-- ===== src/Snapshot/Both/Sent.antt =====
-- What a sequencer recorded while it produced a block reaches the others.
use availproject_op_evm.Prelude.{
  ℕ, ◌≡◌, refl, ap, ◌∙◌, ◌⊎◌, inl, inr, some, List, [], ◌∷◌, map, ok, err,
}
use availproject_op_evm.Prelude.Bytes.{Bytes}
use availproject_op_evm.Prelude.Dict.{Dict}
use availproject_op_evm.Chain.Types.{Hash}
use availproject_op_evm.Snapshot.{
  Storage, StorageLaws, StateStorage, end_recording, apply, put_state, get_state, copy_pairs,
  recorded,
}
use availproject_op_evm.Snapshot.Replay.{put_all, IsRange, apply-end_recording}
use availproject_op_evm.Snapshot.Kv.{
  Kv, KvLaws, Refuses, KvStorage, set_failed, end_kv, apply_kv, set_kv, get_kv, recorded_kv,
}
use availproject_op_evm.Snapshot.Kv.Replay.{
  readings, readings-laws, as_read, set_kv-ok, apply_kv-end_kv,
}
use availproject_op_evm.Snapshot.Both.{
  Snapshot, Snapshotter, begin_both, end_both, apply_both, send, handle_incoming_snapshot,
}

-- A write of the chain's database or of the state.
pub data Write : Type 0 where
  to_chain to_state : Bytes → Bytes → Write

abbrev pub chain_writes : List Write → List (Bytes × Bytes)
chain_writes [] = []
chain_writes (to_chain k v ∷ writes) = (k, v) ∷ chain_writes writes
chain_writes (to_state k v ∷ writes) = chain_writes writes

abbrev pub state_writes : List Write → List (Bytes × Bytes)
state_writes [] = []
state_writes (to_chain k v ∷ writes) = state_writes writes
state_writes (to_state k v ∷ writes) = (k, v) ∷ state_writes writes

-- The snapshot with the metadata of a block.
abbrev pub of_block : ℕ → Hash → Hash → Snapshot → Snapshot
of_block number hash root snapshot = record snapshot {
  block_number = number;
  block_hash = hash;
  state_root = root;
}

copy_pairs-unzipped :
    (es : List (Bytes × Bytes)) → copy_pairs (map (λ e. e.0) es) (map (λ e. e.1) es) ≡ ok es
unfolding copy_pairs
copy_pairs-unzipped [] = refl
copy_pairs-unzipped ((k, v) ∷ es) = rw (copy_pairs-unzipped es) refl

module _ (kv : Kv) (s : Storage) where
  -- The writes of a block, in whatever order they come, each of which succeeds.
  pub data Writes : List Write → Snapshotter kv s → Snapshotter kv s → Type 0 where
    no_writes : {n : Snapshotter kv s} → Writes [] n n
    chain_write :
        {k v : Bytes} {writes : List Write} {n n' : Snapshotter kv s} (chain : KvStorage kv)
        → set_kv kv k v n.chain ≡ (ok tt, chain)
        → Writes writes (record n { chain = chain }) n'
        → Writes (to_chain k v ∷ writes) n n'
    state_write :
        {k v : Bytes} {writes : List Write} {n n' : Snapshotter kv s}
        → Writes writes (record n { state = put_state s k v n.state }) n'
        → Writes (to_state k v ∷ writes) n n'

  apply_both-ok :
      (snapshot : Snapshot) (replica : Snapshotter kv s) (chain : KvStorage kv)
      (state : StateStorage s)
      → apply_kv kv snapshot.blockchain_snapshot replica.chain ≡ (ok tt, chain)
      → apply s snapshot.state_snapshot replica.state ≡ ok state
      → apply_both kv s snapshot replica ≡ (ok tt, record { chain = chain; state = state })
  unfolding apply_both
  apply_both-ok snapshot replica chain state a b =
      rw (ap (λ r. r.0) a, apply_both) (rw (ap (λ r. r.1) a) (rw b refl))

  apply_both-err :
      (snapshot : Snapshot) (replica : Snapshotter kv s) (chain : KvStorage kv)
      → apply_kv kv snapshot.blockchain_snapshot replica.chain ≡ (err set_failed, chain)
      → apply_both kv s snapshot replica ≡ (err set_failed, record replica { chain = chain })
  unfolding apply_both
  apply_both-err snapshot replica chain a =
      rw (ap (λ r. r.0) a, apply_both) (rw (ap (λ r. r.1) a) refl)

module _ (kv : Kv) (kv_laws : KvLaws kv) (s : Storage) (laws : StorageLaws s) where
  Writes-chain :
      (writes : List Write) (n n' : Snapshotter kv s)
      → Writes kv s writes n n'
      → as_read kv n'.chain
        ≡ put_all readings readings-laws (chain_writes writes) (as_read kv n.chain)
  unfolding put_all
  Writes-chain _ n _ no_writes = refl
  Writes-chain _ n n' (chain_write {k} {v} {writes} chain e rest) =
      Writes-chain writes (record n { chain = chain }) n' rest
      ∙ ap (put_all readings readings-laws (chain_writes writes))
          (set_kv-ok kv kv_laws k v n.chain chain e)
  Writes-chain _ n n' (state_write {k} {v} {writes} rest) =
      Writes-chain writes (record n { state = put_state s k v n.state }) n' rest

  Writes-state :
      (writes : List Write) (n n' : Snapshotter kv s)
      → Writes kv s writes n n'
      → n'.state ≡ put_all s laws (state_writes writes) n.state
  unfolding put_all
  Writes-state _ n _ no_writes = refl
  Writes-state _ n n' (chain_write {k} {v} {writes} chain e rest) =
      Writes-state writes (record n { chain = chain }) n' rest
  Writes-state _ n n' (state_write {k} {v} {writes} rest) =
      Writes-state writes (record n { state = put_state s k v n.state }) n' rest

  module _ (hash_bytes : Hash → Bytes) (bytes_to_hash : Bytes → Hash) where
    handle_incoming_snapshot-send :
        ((h : Hash) → bytes_to_hash (hash_bytes h) ≡ h)
        → (number : ℕ) (hash root : Hash) (chain state : List (Bytes × Bytes))
        → let snapshot : Snapshot = record {
          block_number = number;
          block_hash = hash;
          state_root = root;
          blockchain_snapshot = record {
            keys = map (λ e. e.0) chain;
            values = map (λ e. e.1) chain;
          };
          state_snapshot = record { keys = map (λ e. e.0) state; values = map (λ e. e.1) state };
        } in
          handle_incoming_snapshot hash_bytes bytes_to_hash (send hash_bytes bytes_to_hash snapshot)
          ≡ ok (some snapshot)
    unfolding handle_incoming_snapshot send
    handle_incoming_snapshot-send hashes number hash root chain state =
        rw (copy_pairs-unzipped chain, copy_pairs-unzipped state, hashes hash, hashes root) refl

    -- A sequencer records what it writes for a block, whatever it writes to the chain and the state,
    -- and sends it with the block's metadata. Another one, that read like it when recording began,
    -- receives the snapshot with that metadata and applies it without a panic. Either that ends
    -- without an error, and it reads like the first one again, in the chain and in the state; or its
    -- database refuses a write, and its state is what it was.
    pub apply_both-sent :
        ((h : Hash) → bytes_to_hash (hash_bytes h) ≡ h)
        → (range : Dict Bytes → List (Bytes × Bytes)) (original replica written : Snapshotter kv s)
          (writes : List Write) (number : ℕ) (hash root : Hash)
        → IsRange range
        → ((k : Bytes) → get_kv kv replica.chain k ≡ get_kv kv original.chain k)
        → ((k : Bytes) → get_state s replica.state k ≡ get_state s original.state k)
        → Writes kv s writes (begin_both kv s original) written
        → let (snapshot, ended) = end_both kv s range written in
          (received : Snapshot) × (handle_incoming_snapshot hash_bytes bytes_to_hash
              (send hash_bytes bytes_to_hash (of_block number hash root snapshot))
            ≡ ok (some received))
          × (received.block_number ≡ number)
          × (received.block_hash ≡ hash)
          × (((replica' : Snapshotter kv s) × (apply_both kv s received replica ≡ (ok tt, replica'))
                × ((k : Bytes) → get_kv kv replica'.chain k ≡ get_kv kv ended.chain k)
                × ((k : Bytes) → get_state s replica'.state k ≡ get_state s ended.state k))
              ⊎ ((chain : KvStorage kv) × (apply_both kv s received replica
                    ≡ (err set_failed, record replica { chain = chain }))
                  × Refuses kv))
    unfolding end_both begin_both end_kv end_recording get_state
    apply_both-sent hashes range original replica written writes number hash root ranges chain_same
          state_same ran =
        let begun = begin_both kv s original in
        let ran_state = Writes-state writes begun written ran in
        let (state, state_applied, state_reads, state_over) =
          apply-end_recording s laws range original.state replica.state (state_writes writes) ranges
            state_same in
        let snapshot = (end_both kv s range written).0 in
        let block = of_block number hash root snapshot in
        let applied : apply s block.state_snapshot replica.state ≡ ok state =
          rw ran_state state_applied in
        (
          block,
          handle_incoming_snapshot-send hashes number hash root
              (range (recorded_kv kv written.chain.changes))
              (range (recorded s written.state.changes)),
          refl,
          refl,
          elim (apply_kv-end_kv kv kv_laws range original.chain replica.chain written.chain
              (chain_writes writes) ranges chain_same (Writes-chain writes begun written ran)) [
                | inl (chain, done, reads) ↦ inl (
                  record { chain = chain; state = state },
                  apply_both-ok kv s block replica chain state done applied,
                  reads,
                  λ k. rw ran_state (state_reads k),
                )
                | inr (chain, failed, refuses) ↦
                    inr (chain, apply_both-err kv s block replica chain failed, refuses)
              ],
        )
