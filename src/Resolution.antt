-- ===== src/Resolution.antt =====
-- consensus/avail/fraud.go: the two blocks by which a node slashes another one; and pkg/staking's
-- blocks that stake and unstake. They are built, sent to Avail and written to the chain.
pub mod Ending
use availproject_op_evm.Prelude.{
  map_error, ℕ, zero, suc, ◌+◌, ◌%◌, Bool, true, false, Option, none, some, List, [], ◌∷◌, Outcome,
  ok, err, panic, ◌>>=◌, or_fail, ◌==◌, if◌then◌else◌,
}
use availproject_op_evm.Prelude.Bytes.{Bytes}
use availproject_op_evm.Chain.Types.{Hash, Address, u64_mod, Header, Transaction, Block}
use availproject_op_evm.Extra
use availproject_op_evm.Extra.{
  key_end_dispute_resolution_of, get_extra_data_begin_dispute_resolution_target,
}
use availproject_op_evm.Extra.Encoding.{Wire}
use availproject_op_evm.Seal.{Crypto}
use availproject_op_evm.Build
use availproject_op_evm.Build.{
  Executor, Builder, from_parent_header, from_parent_hash, set_block_number, set_difficulty,
  set_coinbase_address, set_extra_data_field, add_transactions, sign_with, build,
}
use availproject_op_evm.Fraud.{Mechanism, sequencer, watch_tower}
use availproject_op_evm.Sequencer.{Filler}
use availproject_op_evm.Staking.Transactions
use availproject_op_evm.Staking.Transactions.{Contract, stake_tx, unstake_tx, slash_staker_tx}

pub data Error : Type 0 where
  no_chain_td no_state signing_failed tx_pool_hash_not_found not_sent not_written : Error
  -- No error of the program: the search in the pool has used up its rounds.
  search_out_of_fuel : Error
  contract_call : Transactions.Error → Error
  building : Build.Error → Error

abbrev pub lift_call : {A : Type 0} → Outcome Transactions.Error A → Outcome Error A
lift_call = map_error contract_call

abbrev pub lift_build : {A : Type 0} → Outcome Build.Error A → Outcome Error A
lift_build = map_error building

-- What a block goes through once it is built: the Avail sender, the chain's `WriteBlock` and the
-- pool's `ResetWithHeaders`. A call tells whether it succeeded.
pub record Outside : Type 1 where
  pub World : Type 0
  pub send : Block → World → Bool × World
  pub write_block : Block → World → Bool × World
  pub reset_with_headers : Header → World → World

module _ (o : Outside) where
  open o use {World, send, write_block, reset_with_headers}

  abbrev pub written_by : Block → Bool × World → Outcome Error Block × World
  written_by blk (false, v) = (err not_written, v)
  written_by blk (true, v) = (ok blk, v)

  abbrev pub sent_by : Block → Bool × World → Outcome Error Block × World
  sent_by blk (false, v) = (err not_sent, v)
  sent_by blk (true, v) = written_by blk (write_block blk v)

  -- Send, then write.
  unfoldable pub ship : Outcome Error Block → World → Outcome Error Block × World
  ship (ok blk) v = sent_by blk (send blk v)
  ship (err e) v = (err e, v)
  ship panic v = (panic, v)

  abbrev pub reset_after : Outcome Error Block × World → Outcome Error Block × World
  reset_after (ok blk, v) = (ok blk, reset_with_headers blk.header v)
  reset_after (err e, v) = (err e, v)
  reset_after (panic, v) = (panic, v)

module _ (w : Wire) (c : Crypto) (x : Executor) (s : Contract) where
  -- What a block of the node's own starts from: the builder on the chain's head with the node as
  -- coinbase and signer.
  abbrev pub own_builder : Header → Address → c.PrivateKey → Builder w c x
  own_builder head addr key =
      sign_with w c x key (set_coinbase_address w c x addr (from_parent_header w c x head))

  -- `Stake`, up to the built block.
  unfoldable pub stake_block : Header → Bytes → Address → c.PrivateKey → ℕ → ℕ → Outcome Error Block
  stake_block head node_type staker key amount gas = do
    tx ← lift_call (stake_tx s staker amount node_type gas)
    lift_build (build w c x (add_transactions w c x (tx ∷ []) (own_builder head staker key)))

  -- `UnStake`, up to the built block.
  unfoldable pub unstake_block : Header → Address → c.PrivateKey → ℕ → Outcome Error Block
  unstake_block head staker key gas = do
    tx ← lift_call (unstake_tx s staker gas)
    lift_build (build w c x (add_transactions w c x (tx ∷ []) (own_builder head staker key)))

  module _ (o : Outside) where
    unfoldable pub stake :
        Header → Bytes → Address → c.PrivateKey → ℕ → ℕ → o.World → Outcome Error Block × o.World
    unfolding stake_block ship
    stake head node_type staker key amount gas v =
        ship o (stake_block head node_type staker key amount gas) v

    unfoldable pub unstake :
        Header → Address → c.PrivateKey → ℕ → o.World → Outcome Error Block × o.World
    unfolding unstake_block ship
    unstake head staker key gas v = ship o (unstake_block head staker key gas) v

  module _ (sign_tx : c.PrivateKey → Transaction → Option Transaction) where
    -- `produceSlashBlock`, up to the built block.
    unfoldable pub slash_block :
        Header → Address → c.PrivateKey → Block → Address → Outcome Error Block
    slash_block head node_addr key fraud_block malicious_addr = do
      tx ← lift_call (slash_staker_tx s node_addr malicious_addr 1000000)
      t ← or_fail (x.begin_txn head.state_root head node_addr) no_state
      signed ← or_fail (sign_tx key (record tx { nonce = x.get_nonce t tx.from })) signing_failed
      lift_build (
          build w c x (
            set_extra_data_field w c x key_end_dispute_resolution_of
              (w.hash_bytes fraud_block.header.hash)
              (add_transactions w c x (signed ∷ []) (own_builder head node_addr key))))

    -- `produceSlashBlock`.
    unfoldable pub produce_slash_block :
        (o : Outside)
        → Header
        → Address
        → c.PrivateKey
        → Block
        → Address
        → o.World
        → Outcome Error Block × o.World
    unfolding slash_block ship
    produce_slash_block o head node_addr key fraud_block malicious_addr v =
        reset_after o (ship o (slash_block head node_addr key fraud_block malicious_addr) v)

-- `DiscoverDisputeResolutionTx`: the transaction of that hash, and the pool after the search. Each
-- round uses up one of the fuel.
unfoldable pub discover : (e : Filler) → ℕ → Hash → e.Pool → Outcome Error Transaction × e.Pool
discover e zero hash p = (err search_out_of_fuel, p)
discover e (suc fuel) hash p = elim (e.peek p) [
  | none ↦ (err tx_pool_hash_not_found, p)
  | some (tx, p') ↦ if tx.hash == hash then (ok tx, e.pop tx p') else discover e fuel hash p'
]

unfoldable pub discover_dispute_resolution_tx :
    (e : Filler) → ℕ → Hash → e.Pool → Outcome Error Transaction × e.Pool
unfolding discover
discover_dispute_resolution_tx e fuel hash p = discover e fuel hash (e.prepare p)

-- `GetBeginDisputeResolutionTxHash`.
unfoldable pub get_begin_dispute_resolution_tx_hash : Wire → Block → Outcome Error Hash
get_begin_dispute_resolution_tx_hash w fraud_block =
    elim (get_extra_data_begin_dispute_resolution_target w fraud_block.header) [
      | ok (hash, exists) ↦ ok hash
      | err e ↦ ok 0
      | panic ↦ panic
    ]

module _ (w : Wire) (c : Crypto) (x : Executor) where
  -- The builder of `produceBeginDisputeResolutionBlock`: a fork below a malicious sequencer's block,
  -- with the next number of the head and a difficulty above the chain's total one; or the head.
  unfoldable pub dispute_builder :
      Option ℕ → Header → Header → Mechanism → Outcome Error (Builder w c x)
  dispute_builder none head malicious kind = err no_chain_td
  dispute_builder (some td) head malicious sequencer = do
    b ← lift_build (from_parent_hash w c x malicious.parent_hash)
    ok (
        set_difficulty w c x ((td + 1) % u64_mod)
          (set_block_number w c x ((head.number + 1) % u64_mod) b))
  dispute_builder (some td) head malicious watch_tower = ok (from_parent_header w c x head)

  -- The block on that builder.
  unfoldable pub dispute_block :
      Builder w c x → Address → c.PrivateKey → Transaction → Outcome Error Block
  dispute_block b node_addr key tx = lift_build (
      build w c x (
        add_transactions w c x (tx ∷ [])
          (sign_with w c x key (set_coinbase_address w c x node_addr b))))

  module _ (e : Filler) (o : Outside) where
    abbrev pub discovered_by :
        Builder w c x
        → Address
        → c.PrivateKey
        → o.World
        → Outcome Error Transaction × e.Pool
        → Outcome Error Block × e.Pool × o.World
    discovered_by b node_addr key v (ok tx, p) =
        let (r, v') = reset_after o (ship o (dispute_block b node_addr key tx) v) in (r, p, v')
    discovered_by b node_addr key v (err x, p) = (err x, p, v)
    discovered_by b node_addr key v (panic, p) = (panic, p, v)

    -- `produceBeginDisputeResolutionBlock`: the block, the pool and the world after it.
    unfoldable pub produce_begin_dispute_resolution_block :
        ℕ
        → Option ℕ
        → Header
        → Address
        → c.PrivateKey
        → Block
        → Header
        → Mechanism
        → e.Pool
        → o.World
        → Outcome Error Block × e.Pool × o.World
    unfolding dispute_builder dispute_block ship
    produce_begin_dispute_resolution_block fuel td head node_addr key fraud_block malicious kind p
          v =
        elim (dispute_builder td head malicious kind) [
          | ok b ↦ elim (get_begin_dispute_resolution_tx_hash w fraud_block) [
            | ok hash ↦
                discovered_by b node_addr key v (discover_dispute_resolution_tx e fuel hash p)
            | err x ↦ (err x, p, v)
            | panic ↦ (panic, p, v)
          ]
          | err x ↦ (err x, p, v)
          | panic ↦ (panic, p, v)
        ]
