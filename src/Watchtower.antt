-- ===== src/Watchtower.antt =====
-- consensus/avail/watchtower/watchtower.go: the check of a block, and the block by which a watchtower
-- accuses another one.
pub mod Accusation
pub mod Patrol
use availproject_op_evm.Prelude.{
  map_error, ℕ, Bool, Option, none, some, List, [], ◌∷◌, Outcome, ok, err, panic, ◌>>=◌, or_fail,
}
use availproject_op_evm.Prelude.Bytes.{Bytes}
use availproject_op_evm.Chain.Types
use availproject_op_evm.Chain.Types.{Hash, Address, Header, Transaction, Block}
use availproject_op_evm.Chain.Verify.{Execution, verify_finalized_block}
use availproject_op_evm.Extra.{key_fraud_proof_of, key_begin_dispute_resolution_of}
use availproject_op_evm.Extra.Encoding.{Wire}
use availproject_op_evm.Seal.{Crypto}
use availproject_op_evm.Build
use availproject_op_evm.Build.{
  Executor, Builder, from_parent_hash, set_coinbase_address, set_gas_limit, set_extra_data_field,
  add_transactions, sign_with, build,
}
use availproject_op_evm.Staking.Transactions
use availproject_op_evm.Staking.Transactions.{Contract, begin_dispute_resolution_tx}

pub data Error : Type 0 where
  invalid_block no_state signing_failed pool_refused : Error
  verification : Types.Error → Error
  contract_call : Transactions.Error → Error
  building : Build.Error → Error

abbrev pub lift_verification : {A : Type 0} → Outcome Types.Error A → Outcome Error A
lift_verification = map_error verification

abbrev pub lift_call : {A : Type 0} → Outcome Transactions.Error A → Outcome Error A
lift_call = map_error contract_call

abbrev pub lift_build : {A : Type 0} → Outcome Build.Error A → Outcome Error A
lift_build = map_error building

-- `Check`, with the chain's `VerifyFinalizedBlock`; `none` is a nil block or a block without a header.
unfoldable pub check :
    (e : Execution)
    → (Hash → Option Header)
    → (Transaction → Bool)
    → e.Receipts
    → Option Block
    → Outcome Error e.Receipts
check e read_header is_dispute receipts none = err invalid_block
check e read_header is_dispute receipts (some blk) = do
  verified ← lift_verification (verify_finalized_block e read_header is_dispute receipts blk)
  ok verified.1

-- polygon-edge's signer of transactions and its transaction pool, which tests leave out.
pub record Services (c : Crypto) : Type 1 where
  pub Pool : Type 0
  pub sign_tx : c.PrivateKey → Transaction → Option Transaction
  pub add_tx : Transaction → Pool → Option Pool

module _ (w : Wire) (c : Crypto) (x : Executor) (s : Contract) (services : Services c) where
  open services use {Pool, sign_tx, add_tx}

  -- `watchTower`.
  pub record Tower : Type 0 where
    pub account : Address
    pub sign_key : c.PrivateKey

  -- `constructFraudproofTxs`: one transaction.
  unfoldable pub construct_fraudproof_txs : Address → Block → Outcome Error (List Transaction)
  construct_fraudproof_txs account malicious = do
    tx ← lift_call (
        begin_dispute_resolution_tx s account (w.bytes_to_address malicious.header.miner)
          malicious.header.gas_limit)
    ok (tx ∷ [])

  -- The nonce of the first transaction is set, and it is signed; `fraudProofTxs[0]` panics if there
  -- is none.
  abbrev pub sign_first :
      Tower
      → x.Transition
      → Builder w c x
      → List Transaction
      → Outcome Error (Builder w c x × List Transaction × Transaction)
  sign_first tower transition builder [] = panic
  sign_first tower transition builder (tx ∷ rest) = do
    let numbered = record tx { nonce = x.get_nonce transition tx.from }
    signed ← or_fail (sign_tx tower.sign_key numbered) signing_failed
    ok (builder, numbered ∷ rest, signed)

  -- What `ConstructFraudproof` prepares before it touches the pool: the builder, the transactions
  -- with the nonce of the first one set, and the first one signed.
  unfoldable pub prepare_fraudproof :
      Tower → Block → Outcome Error (Builder w c x × List Transaction × Transaction)
  unfolding construct_fraudproof_txs
  prepare_fraudproof tower malicious = do
    builder ← lift_build (from_parent_hash w c x malicious.header.parent_hash)
    txs ← construct_fraudproof_txs tower.account malicious
    parent ← elim (x.get_header_by_hash malicious.header.parent_hash) [
      | none ↦ panic
      | some h ↦ ok h
    ]
    transition ← or_fail (x.begin_txn parent.state_root parent tower.account) no_state
    sign_first tower transition builder txs

  -- The builder as `ConstructFraudproof` sets it.
  abbrev pub accusing_builder :
      Tower → Block → Builder w c x → List Transaction → Transaction → Builder w c x
  accusing_builder tower malicious builder txs signed = sign_with w c x tower.sign_key (
      add_transactions w c x txs (
        set_extra_data_field w c x key_begin_dispute_resolution_of (w.hash_bytes signed.hash) (
          set_extra_data_field w c x key_fraud_proof_of (w.hash_bytes malicious.header.hash) (
            set_gas_limit w c x malicious.header.gas_limit
              (set_coinbase_address w c x tower.account builder)))))

  -- `AddTx`, if there is a pool.
  abbrev pub offer : Transaction → Option Pool → Option (Option Pool)
  offer tx none = some none
  offer tx (some pool) = elim (add_tx tx pool) [ none ↦ none | some pool' ↦ some (some pool') ]

  -- The rest of `ConstructFraudproof`.
  unfoldable pub accuse :
      Tower
      → Block
      → Option Pool
      → Builder w c x × List Transaction × Transaction
      → Outcome Error Block × Option Pool
  accuse tower malicious pool (builder, txs, signed) = elim (offer signed pool) [
    | none ↦ (err pool_refused, pool)
    | some pool' ↦
        (lift_build (build w c x (accusing_builder tower malicious builder txs signed)), pool')
  ]

  -- `ConstructFraudproof`: the block, and the pool after it.
  unfoldable pub construct_fraudproof :
      Tower → Block → Option Pool → Outcome Error Block × Option Pool
  unfolding prepare_fraudproof accuse
  construct_fraudproof tower malicious pool = elim (prepare_fraudproof tower malicious) [
    | ok prepared ↦ accuse tower malicious pool prepared
    | err e ↦ (err e, pool)
    | panic ↦ (panic, pool)
  ]
