-- ===== src/Chain/Verify/Parent.antt =====
-- What the two parent checks accept, and where they differ.
use availproject_op_evm.Prelude.{
  ◌+◌, ◌%◌, ◌^◌, refl, ◌≤◌, ◌<◌, ◌≡◌, ◌≢◌, ◌↔◌, ◌⊎◌, Bool, true, Option, some, List, [], ◌∷◌,
  Outcome, ok, err, arith,
}
use availproject_op_evm.Chain.Types.{
  Error, Hash, u64_mod, Header, Transaction, Block, invalid_block_sequence,
}
use availproject_op_evm.Chain.Gas.{verify_gas_limit}
use availproject_op_evm.Chain.Gas.Bounds.{IsNear, verify_gas_limit_iff}
use availproject_op_evm.Chain.Verify.{
  has_dispute_tx, follows, verify_block_parent, all_dispute_txs, validator_verify_block_parent,
}

-- Some transaction begins a dispute resolution.
abbrev pub HasDispute : (Transaction → Bool) → List Transaction → Type 0
HasDispute is_dispute [] = ⊥
HasDispute is_dispute (tx ∷ txs) = (is_dispute tx ≡ true) ⊎ HasDispute is_dispute txs

has_dispute_tx_iff :
    (is_dispute : Transaction → Bool) (txs : List Transaction)
    → (has_dispute_tx is_dispute txs ≡ true) ↔ HasDispute is_dispute txs
unfolding has_dispute_tx
has_dispute_tx_iff is_dispute [] = ground arith
has_dispute_tx_iff is_dispute (tx ∷ txs) = ground (arith, has_dispute_tx_iff is_dispute txs)

-- A child is in line with its parent: the parent's hash is there and the one named, the number is
-- the next one or the block begins a dispute, and the gas used and the gas limit are within bounds.
abbrev pub IsInLine : (Transaction → Bool) → Block → Header → Type 0
IsInLine is_dispute child parent =
    (parent.hash ≢ 0)
    × (child.header.parent_hash ≡ parent.hash)
    × ((child.header.number ≡ parent.number + 1) ⊎ HasDispute is_dispute child.transactions)
    × (child.header.gas_used ≤ child.header.gas_limit)
    × ((child.header.number ≡ 0) ⊎ IsNear parent.gas_limit child.header.gas_limit)

-- The full check accepts a block exactly when it is in line with the parent that it names, for
-- numbers within `uint64` and gas limits below 2 ^ 63.
pub verify_block_parent_iff :
    (read_header : Hash → Option Header) (is_dispute : Transaction → Bool) (child : Block)
    (parent : Header)
    → read_header child.header.parent_hash ≡ some parent
    → child.header.number < u64_mod
    → parent.number + 1 < u64_mod
    → parent.gas_limit < 2 ^ 63
    → child.header.gas_limit < 2 ^ 63
    → (verify_block_parent read_header is_dispute child ≡ ok tt) ↔ IsInLine is_dispute child parent
unfolding verify_block_parent
verify_block_parent_iff read_header is_dispute child parent found hn hp hg hg' = ground (
  arith,
  verify_gas_limit_iff child.header parent hg hg',
  has_dispute_tx_iff is_dispute child.transactions,
)

-- The two checks agree on every block whose number is the next one after a known parent's, within
-- `uint64`.
pub validator_verify_block_parent-agrees :
    (read_header : Hash → Option Header) (is_dispute : Transaction → Bool)
    (staking_test : Transaction → Outcome Error Bool) (child : Block) (parent : Header)
    → read_header child.header.parent_hash ≡ some parent
    → child.header.number ≡ parent.number + 1
    → child.header.number < u64_mod
    → validator_verify_block_parent read_header staking_test child
      ≡ verify_block_parent read_header is_dispute child
unfolding verify_block_parent validator_verify_block_parent
validator_verify_block_parent-agrees read_header is_dispute staking_test child parent found next
      hn =
    ground arith

-- They differ on a block without transactions whose number, within `uint64`, does not follow that
-- of the parent which it names correctly: the full check refuses it for its number, and the
-- validator looks at its gas alone.
pub validator_verify_block_parent-empty :
    (read_header : Hash → Option Header) (is_dispute : Transaction → Bool)
    (staking_test : Transaction → Outcome Error Bool) (child : Block) (parent : Header)
    → read_header child.header.parent_hash ≡ some parent
    → parent.hash ≢ 0
    → child.header.parent_hash ≡ parent.hash
    → child.transactions ≡ []
    → child.header.number ≢ parent.number + 1
    → child.header.number < u64_mod
    → parent.number + 1 < u64_mod
    → (verify_block_parent read_header is_dispute child ≡ err invalid_block_sequence)
      × (validator_verify_block_parent read_header staking_test child
          ≡ verify_gas_limit child.header parent)
unfolding verify_block_parent validator_verify_block_parent has_dispute_tx all_dispute_txs
validator_verify_block_parent-empty read_header is_dispute staking_test child parent found hz named
      empty skip hn hp =
    (ground arith, ground arith)

-- Both checks come down to the gas limit for a child that names its parent and has the next number
-- modulo `2 ^ 64`.
pub verify_block_parent_next :
    (read_header : Hash → Option Header) (is_dispute : Transaction → Bool)
    (staking_test : Transaction → Outcome Error Bool) (child : Block) (parent : Header)
    → read_header parent.hash ≡ some parent
    → parent.hash ≢ 0
    → child.header.parent_hash ≡ parent.hash
    → child.header.number ≡ (parent.number + 1) % u64_mod
    → parent.number < u64_mod
    → (verify_block_parent read_header is_dispute child ≡ verify_gas_limit child.header parent)
      × (validator_verify_block_parent read_header staking_test child
          ≡ verify_gas_limit child.header parent)
unfolding verify_block_parent validator_verify_block_parent
verify_block_parent_next read_header is_dispute staking_test child parent found hz named next
      small =
    let reads : read_header child.header.parent_hash ≡ some parent = rw (named, found) refl in
    let follow : follows child.header parent ≡ true = ground arith in (ground arith, ground arith)
