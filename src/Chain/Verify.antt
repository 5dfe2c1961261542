-- ===== src/Chain/Verify.antt =====
-- Block verification in pkg/blockchain/blockchain.go, and the lighter one of
-- consensus/avail/validator/validator.go, which skips the execution of the transactions.
pub mod Parent
pub mod Body
use availproject_op_evm.Prelude.{
  ℕ, ◌+◌, ◌-◌, ◌%◌, Bool, true, false, not, ◌||◌, Option, none, some, List, [], ◌∷◌, Outcome, ok,
  err, ◌>>=◌, ◌>>◌, guard, or_fail, leb, ◌==◌, if◌then◌else◌, length, take, drop,
}
use availproject_op_evm.Prelude.Bytes.{Bytes, bytes_eq}
use availproject_op_evm.Chain.Types.{
  Hash, Address, u64_mod, Header, Transaction, Block, Error, no_block, parent_not_found,
  invalid_parent_hash, parent_hash_mismatch, invalid_block_sequence, invalid_sha3_uncles,
  invalid_tx_root, invalid_receipts_size, invalid_state_root, invalid_gas_used,
  invalid_receipts_root, execution_failed,
}
use availproject_op_evm.Chain.Gas.{verify_gas_limit}

-- The staking contract's ABI: the selector of `BeginDisputeResolution`, and whether its inputs can
-- be decoded and name a `sequencerAddr`.
pub record Abi : Type 0 where
  pub selector : Bytes
  pub decode_inputs : Bytes → Option Bool

-- `isBeginDisputeResolutionTx`.
unfoldable pub is_begin_dispute_resolution_tx : Abi → Transaction → Bool
is_begin_dispute_resolution_tx abi tx =
    if leb (length tx.input) (length abi.selector)
    then false
    else if bytes_eq (take (length abi.selector) tx.input) abi.selector
    then elim (abi.decode_inputs (drop (length abi.selector) tx.input)) [
      | none ↦ false
      | some exists ↦ exists
    ]
    else false

-- The loop over the transactions: is one of them such a transaction?
unfoldable pub has_dispute_tx : (Transaction → Bool) → List Transaction → Bool
has_dispute_tx is_dispute [] = false
has_dispute_tx is_dispute (tx ∷ txs) = if is_dispute tx then true else has_dispute_tx is_dispute txs

-- `childBlock.Number()-1 == parent.Number`, on `uint64`.
abbrev pub follows : Header → Header → Bool
follows child parent = (child.number + u64_mod - 1) % u64_mod == parent.number

-- `verifyBlockParent`, over the headers that can be read and the test on transactions.
unfoldable pub verify_block_parent :
    (Hash → Option Header) → (Transaction → Bool) → Block → Outcome Error (Unit {0})
verify_block_parent read_header is_dispute child = do
  parent ← or_fail (read_header child.header.parent_hash) parent_not_found
  guard (not (parent.hash == 0)) invalid_parent_hash
  guard (child.header.parent_hash == parent.hash) parent_hash_mismatch
  guard (follows child.header parent || has_dispute_tx is_dispute child.transactions)
      invalid_block_sequence
  verify_gas_limit child.header parent

-- The same loop in the validator, with the test of package staking, which may fail: the first
-- transaction of another kind is an error.
unfoldable pub all_dispute_txs :
    (Transaction → Outcome Error Bool) → List Transaction → Outcome Error (Unit {0})
all_dispute_txs is_dispute [] = ok tt
all_dispute_txs is_dispute (tx ∷ txs) = do
  found ← is_dispute tx
  if found then all_dispute_txs is_dispute txs else err invalid_block_sequence

-- The validator's `verifyBlockParent`.
unfoldable pub validator_verify_block_parent :
    (Hash → Option Header) → (Transaction → Outcome Error Bool) → Block → Outcome Error (Unit {0})
unfolding all_dispute_txs
validator_verify_block_parent read_header is_dispute child = do
  parent ← or_fail (read_header child.header.parent_hash) parent_not_found
  guard (not (parent.hash == 0)) invalid_parent_hash
  guard (child.header.parent_hash == parent.hash) parent_hash_mismatch
  if follows child.header parent then ok tt else all_dispute_txs is_dispute child.transactions
  verify_gas_limit child.header parent

-- What polygon-edge and the consensus give to verification: the roots of `buildroot`, the header
-- check of the consensus, and the execution of a block on a state (`ProcessBlock`, `PreCommitState`
-- and `Commit`), with the receipts cache in front of it.
pub record Execution : Type 1 where
  pub Receipt : Type 0
  pub Receipts : Type 0
  pub uncle_root : List Header → Hash
  pub transactions_root : List Transaction → Hash
  pub receipts_root : List Receipt → Hash
  pub verify_header : Header → Outcome Error (Unit {0})
  pub block_creator : Header → Address
  pub process_block : Hash → Block → Address → Option (Hash × List Receipt × ℕ)
  pub cached : Receipts → Hash → Option (List Receipt)
  pub cache : Hash → List Receipt → Receipts → Receipts

module _ (e : Execution) where
  open e use {Receipt, Receipts}

  pub record BlockResult : Type 0 where
    pub root : Hash
    pub receipts : List Receipt
    pub total_gas : ℕ

  pub verify_block_result : BlockResult → Block → Outcome Error (Unit {0})
  verify_block_result br reference = do
    guard (length br.receipts == length reference.transactions) invalid_receipts_size
    guard (br.root == reference.header.state_root) invalid_state_root
    guard (br.total_gas == reference.header.gas_used) invalid_gas_used
    guard (e.receipts_root br.receipts == reference.header.receipts_root) invalid_receipts_root

  -- The result, and the receipts cache after it.
  unfoldable pub execute_block_transactions :
      (Hash → Option Header) → Receipts → Block → Outcome Error (BlockResult × Receipts)
  execute_block_transactions read_header receipts block = do
    parent ← or_fail (read_header block.header.parent_hash) parent_not_found
    run ←
        or_fail (e.process_block parent.state_root block (e.block_creator block.header))
          execution_failed
    ok (
      record { root = run.0; receipts = run.1; total_gas = run.2 },
      e.cache block.header.hash run.1 receipts,
    )

  pub verify_block_body :
      (Hash → Option Header) → Receipts → Block → Outcome Error (List Receipt × Receipts)
  unfolding execute_block_transactions verify_block_result
  verify_block_body read_header receipts block = do
    guard (e.uncle_root block.uncles == block.header.sha3_uncles) invalid_sha3_uncles
    guard (e.transactions_root block.transactions == block.header.tx_root) invalid_tx_root
    run ← execute_block_transactions read_header receipts block
    verify_block_result run.0 block
    ok (run.0.receipts, run.1)

  -- `verifyBlock`; `none` is a nil block.
  pub verify_block :
      (Hash → Option Header)
      → (Transaction → Bool)
      → Receipts
      → Option Block
      → Outcome Error (List Receipt × Receipts)
  unfolding verify_block_parent verify_block_body
  verify_block read_header is_dispute receipts maybe_block = do
    block ← or_fail maybe_block no_block
    verify_block_parent read_header is_dispute block
    verify_block_body read_header receipts block

  pub verify_finalized_block :
      (Hash → Option Header)
      → (Transaction → Bool)
      → Receipts
      → Block
      → Outcome Error (List Receipt × Receipts)
  unfolding verify_block
  verify_finalized_block read_header is_dispute receipts block = do
    e.verify_header block.header
    verify_block read_header is_dispute receipts (some block)

  -- The validator's `verifyBlockBody`: no transaction is executed.
  pub validator_verify_block_body : Block → Outcome Error (Unit {0})
  validator_verify_block_body block = do
    guard (e.uncle_root block.uncles == block.header.sha3_uncles) invalid_sha3_uncles
    guard (e.transactions_root block.transactions == block.header.tx_root) invalid_tx_root
