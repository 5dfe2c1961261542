-- ===== src/Fraud.antt =====
-- consensus/avail/fraud.go: the state of a dispute over a fraudulent block, and who is slashed.
pub mod Dispute
use availproject_op_evm.Prelude.{
  ℕ, Bool, true, false, not, ◌&&◌, Option, none, some, List, [], ◌∷◌, Outcome, ok, err, panic, ◌==◌,
  if◌then◌else◌,
}
use availproject_op_evm.Prelude.Bytes.{Bytes}
use availproject_op_evm.Chain.Types.{Hash, Address, Header, Transaction, Block}
use availproject_op_evm.Extra.{
  get_extra_data_fraud_proof_target, get_extra_data_end_dispute_resolution_target,
}
use availproject_op_evm.Extra.Encoding.{Wire}

abbrev pub chain_processing_disabled : ℕ
chain_processing_disabled = 0

abbrev pub chain_processing_enabled : ℕ
chain_processing_enabled = 1

-- The kinds of nodes that can be slashed.
pub data Mechanism : Type 0 where
  sequencer watch_tower : Mechanism

pub data Error : Type 0 where
  malicious_block_not_found own_block production_failed : Error

-- `Fraud`, its own state: of the last disputed transaction only the hash is used.
-- `block_production_enabled` is the flag that it shares with the block producer.
pub record Fraud : Type 0 where
  pub fraud_block : Option Block
  pub last_fraud_disputed_tx : Option Hash
  pub chain_process_status : ℕ
  pub block_production_enabled : Bool

-- `SetBlock`.
abbrev pub set_block : Option Block → Fraud → Fraud
set_block b f = record f { fraud_block = b }

-- `SetChainStatus`.
unfoldable pub set_chain_status : ℕ → Fraud → Fraud
set_chain_status status f = record f {
  chain_process_status = status;
  block_production_enabled = (if status == chain_processing_enabled then true else false);
}

-- `IsChainDisabled`.
unfoldable pub is_chain_disabled : Fraud → Bool
is_chain_disabled f = f.chain_process_status == chain_processing_disabled

abbrev pub is_some : {A : Type 0} → Option A → Bool
is_some none = false
is_some (some a) = true

-- `IsReadyToSlash`.
unfoldable pub is_ready_to_slash : Fraud → Bool
is_ready_to_slash f =
    if f.chain_process_status == chain_processing_disabled && is_some f.fraud_block
    then true
    else false

-- `EndDisputeResolution`.
unfoldable pub end_dispute_resolution : Fraud → Fraud
end_dispute_resolution f = set_chain_status chain_processing_enabled (set_block none f)

-- What `ShouldStopProducingBlocks` sets on a transaction that begins a dispute.
abbrev pub begin_dispute : Transaction → Fraud → Fraud
begin_dispute tx f = record (set_chain_status chain_processing_disabled f) {
  last_fraud_disputed_tx = some tx.hash;
}

-- One transaction that `ShouldStopProducingBlocks` peeks at: the answers on whether it begins a
-- dispute and whether its sender is a watchtower are `none` where the code gets an error. The Boolean
-- says that the inner loop ends. The log call asks for the recipient's string, which panics in a
-- transaction that creates a contract.
unfoldable pub consider_tx :
    (Transaction → Option Bool)
    → (Address → Option Bool)
    → Address
    → Transaction
    → Fraud
    → Outcome Error Bool × Fraud
consider_tx is_begin_tx is_watchtower contract tx f = elim (is_begin_tx tx) [
  | none ↦ (ok false, f)
  | some false ↦ (ok false, f)
  | some true ↦ elim (is_watchtower tx.from) [
    | none ↦ (ok false, f)
    | some watchtower ↦ elim (tx.to) [
      | none ↦ (panic, f)
      | some to ↦
          if not (watchtower && (to == contract))
          then (ok false, f)
          else elim (f.last_fraud_disputed_tx) [
            | none ↦ (ok true, begin_dispute tx f)
            | some last ↦ if tx.hash == last then (ok false, f) else (ok true, begin_dispute tx f)
          ]
    ]
  ]
]

abbrev pub unless_stopped :
    Outcome Error Bool × Fraud
    → (Fraud → Outcome Error (Unit {0}) × Fraud)
    → Outcome Error (Unit {0}) × Fraud
unless_stopped (ok true, f) rest = (ok tt, f)
unless_stopped (ok false, f) rest = rest f
unless_stopped (err e, f) rest = (err e, f)
unless_stopped (panic, f) rest = (panic, f)

-- The inner loop over the transactions that are peeked at one after the other.
unfoldable pub watch_pool :
    (Transaction → Option Bool)
    → (Address → Option Bool)
    → Address
    → List Transaction
    → Fraud
    → Outcome Error (Unit {0}) × Fraud
watch_pool is_begin_tx is_watchtower contract [] f = (ok tt, f)
watch_pool is_begin_tx is_watchtower contract (tx ∷ txs) f =
    unless_stopped (consider_tx is_begin_tx is_watchtower contract tx f)
      (watch_pool is_begin_tx is_watchtower contract txs)

module _ (w : Wire) where
  -- `CheckAndSetFraudBlock`.
  unfoldable pub check_and_set_fraud_block : List Block → Fraud → Outcome Error Bool × Fraud
  check_and_set_fraud_block [] f = (ok false, f)
  check_and_set_fraud_block (blk ∷ blks) f = elim (get_extra_data_fraud_proof_target w blk.header) [
    | ok (target, true) ↦ (ok true, set_block (some blk) f)
    | ok (target, false) ↦ check_and_set_fraud_block blks f
    | err e ↦ check_and_set_fraud_block blks f
    | panic ↦ (panic, f)
  ]

  -- `IsDisputeResolutionEnded`.
  unfoldable pub is_dispute_resolution_ended : Header → Fraud → Outcome Error Bool
  is_dispute_resolution_ended h f = elim (f.fraud_block) [
    | none ↦ ok false
    | some blk ↦ elim (get_extra_data_end_dispute_resolution_target w h) [
      | ok (target, exists) ↦ ok (blk.header.hash == target)
      | err e ↦ ok (blk.header.hash == 0)
      | panic ↦ panic
    ]
  ]

  -- `IsFraudProofBlock`.
  unfoldable pub is_fraud_proof_block : Block → Outcome Error Bool
  is_fraud_proof_block blk = elim (get_extra_data_fraud_proof_target w blk.header) [
    | ok (target, exists) ↦ ok exists
    | err e ↦ ok false
    | panic ↦ panic
  ]

-- What `CheckAndSlash` calls: the local chain, which takes whether the block is wanted in full, the watchtower's check, and the two functions that
-- build, send and write a block, which end in a block or not.
pub record Services : Type 0 where
  pub node_addr : Address
  pub to_address : Bytes → Address
  pub get_block_by_hash : Hash → Bool → Option Block
  pub check : Block → Bool
  pub produce_begin_dispute_resolution_block : Address → Header → Mechanism → Option Block
  pub produce_slash_block : Block → Block → Address → Header → Mechanism → Option Block

-- `slashNode`: also the blocks that were produced.
unfoldable pub slash_node :
    Services → Block → Address → Header → Mechanism → Fraud → Outcome Error (List Block) × Fraud
slash_node s fraud_block addr h kind f =
    elim (s.produce_begin_dispute_resolution_block addr h kind) [
      | none ↦ (err production_failed, f)
      | some dispute ↦ elim (s.produce_slash_block fraud_block dispute addr h kind) [
        | none ↦ (err production_failed, f)
        | some slash ↦ (ok (dispute ∷ slash ∷ []), end_dispute_resolution f)
      ]
    ]

-- The second half of `CheckAndSlash`, on the block that the fraud proof names.
unfoldable pub judge : Services → Block → Block → Fraud → Outcome Error (List Block) × Fraud
judge s fraud_block malicious f =
    if s.to_address malicious.header.miner == s.node_addr
    then (err own_block, f)
    else if s.check malicious
    then slash_node s fraud_block (s.to_address fraud_block.header.miner) malicious.header
        watch_tower f
    else slash_node s fraud_block (s.to_address malicious.header.miner) malicious.header sequencer f

-- `CheckAndSlash`: in place of `true` and `false`, the blocks that were produced and none.
unfoldable pub check_and_slash : Wire → Services → Fraud → Outcome Error (List Block) × Fraud
check_and_slash w s f = if not (is_ready_to_slash f) then (ok [], f) else elim (f.fraud_block) [
  | none ↦ (panic, f)
  | some blk ↦ elim (get_extra_data_fraud_proof_target w blk.header) [
    | ok (target, true) ↦ elim (s.get_block_by_hash target false) [
      | none ↦ (err malicious_block_not_found, f)
      | some malicious ↦ judge s blk malicious f
    ]
    | ok (target, false) ↦ (panic, end_dispute_resolution f)
    | err e ↦ (panic, end_dispute_resolution f)
    | panic ↦ (panic, f)
  ]
]
