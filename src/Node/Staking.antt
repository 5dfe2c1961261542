-- ===== src/Node/Staking.antt =====
-- consensus/avail/staking.go: a node sees to its stake before it takes part.
pub mod Retries
use availproject_op_evm.Prelude.{
  ℕ, zero, suc, Bool, true, false, Option, none, some, List, [], ◌∷◌, map_error, Outcome, ok, err,
  panic, ◌>>=◌, or_fail, if◌then◌else◌,
}
use availproject_op_evm.Prelude.Bytes.{Bytes, codes}
use availproject_op_evm.Chain.Types.{Address, Header, Transaction, Block}
use availproject_op_evm.Extra.Encoding.{Wire}
use availproject_op_evm.Seal.{Crypto}
use availproject_op_evm.Build
use availproject_op_evm.Build.{Executor, add_transactions, build}
use availproject_op_evm.Resolution
use availproject_op_evm.Resolution.{Outside, own_builder, ship}
use availproject_op_evm.Staking.Participants
use availproject_op_evm.Staking.Participants.{Views, NodeType, contains, in_probation}
use availproject_op_evm.Staking.Transactions
use availproject_op_evm.Staking.Transactions.{Contract, stake_tx}
use availproject_op_evm.Node.Kind.{
  Kind, bootstrap_sequencer, sequencer, watch_tower, other, kind_name,
}

pub data Error : Type 0 where
  unknown_node_type under_probation : Error
  query : Participants.Error → Error
  staking : Resolution.Error → Error

-- The kinds whose stake goes through the pool.
abbrev pub IsPooled : Kind → Type 0
IsPooled sequencer = Unit
IsPooled watch_tower = Unit
IsPooled k = ⊥

-- 10 ETH, which `StakeTx` does not look at.
abbrev stake_amount : ℕ
stake_amount = 10000000000000000000

-- The type of a node in package staking.
abbrev pub node_type_of : Kind → Option NodeType
node_type_of bootstrap_sequencer = some NodeType.sequencer
node_type_of sequencer = some NodeType.sequencer
node_type_of watch_tower = some NodeType.watch_tower
node_type_of (other name) = none

module _ (w : Wire) (c : Crypto) (x : Executor) (s : Contract) where
  module _ (sign_tx : c.PrivateKey → Transaction → Option Transaction) where
    -- The signed transaction that stakes.
    unfoldable pub signed_stake :
        Address → c.PrivateKey → Bytes → Outcome Resolution.Error Transaction
    signed_stake addr key node_type = do
      tx ← map_error Resolution.contract_call (stake_tx s addr stake_amount node_type 1000000)
      or_fail (sign_tx key tx) Resolution.signing_failed

    -- `stakeParticipant`, up to the built block.
    unfoldable pub participant_block :
        Header → Address → c.PrivateKey → Bytes → Outcome Resolution.Error Block
    unfolding signed_stake
    participant_block head addr key node_type = do
      tx ← signed_stake addr key node_type
      map_error Resolution.building
          (build w c x (add_transactions w c x (tx ∷ []) (own_builder w c x s head addr key)))

    module _ (o : Outside) where
      -- How the pool takes a transaction: whether it does.
      abbrev pub Pooling : Type 0
      Pooling = Transaction → o.World → Bool × o.World

      -- `stakeParticipant`: without a wait, as the bootstrap sequencer calls it.
      unfoldable pub stake_participant :
          Header
          → Address
          → c.PrivateKey
          → Bytes
          → o.World
          → Outcome Resolution.Error Block × o.World
      unfolding participant_block ship
      stake_participant head addr key node_type v =
          ship o (participant_block head addr key node_type) v

      -- The loop over the retries: it goes on until the pool takes the transaction.
      unfoldable pub try_to_add : Pooling → ℕ → Transaction → o.World → o.World
      try_to_add add zero tx v = v
      try_to_add add (suc retries) tx v = elim (add tx v).0 [
        | true ↦ (add tx v).1
        | false ↦ try_to_add add retries tx (add tx v).1
      ]

      -- `stakeParticipantThroughTxPool`, once a peer is there.
      unfoldable pub stake_through_tx_pool :
          Pooling
          → Kind
          → Address
          → c.PrivateKey
          → o.World
          → Outcome Resolution.Error Bool × o.World
      stake_through_tx_pool add kind addr key v = elim (signed_stake addr key (kind_name kind)) [
        | ok tx ↦ (ok true, try_to_add add 10 tx v)
        | err e ↦ (err e, v)
        | panic ↦ (panic, v)
      ]

      abbrev pub done_with :
          {A : Type 0} → Outcome Resolution.Error A × o.World → Outcome Error (Unit {0}) × o.World
      done_with (ok a, v) = (ok tt, v)
      done_with (err e, v) = (err (staking e), v)
      done_with (panic, v) = (panic, v)

      -- The second `switch` of `ensureStaked`.
      unfoldable pub stake_as :
          Pooling
          → Kind
          → Header
          → Address
          → c.PrivateKey
          → o.World
          → Outcome Error (Unit {0}) × o.World
      stake_as add bootstrap_sequencer head addr key v =
          done_with (stake_participant head addr key (kind_name sequencer) v)
      stake_as add sequencer head addr key v =
          done_with (stake_through_tx_pool add sequencer addr key v)
      stake_as add watch_tower head addr key v =
          done_with (stake_through_tx_pool add watch_tower addr key v)
      stake_as add (other name) head addr key v = (ok tt, v)

      -- What `ensureStaked` does after its questions: nothing more on a staked node.
      abbrev pub unless_staked :
          Pooling
          → Kind
          → Header
          → Address
          → c.PrivateKey
          → o.World
          → Outcome Error Bool
          → Outcome Error (Unit {0}) × o.World
      unless_staked add kind head addr key v (ok true) = (ok tt, v)
      unless_staked add kind head addr key v (ok false) = stake_as add kind head addr key v
      unless_staked add kind head addr key v (err e) = (err e, v)
      unless_staked add kind head addr key v panic = (panic, v)

      module _ (views : Views x) where
        -- The questions: is the node in probation, and is it staked?
        unfoldable pub is_staked : Kind → Header → Address → Outcome Error Bool
        unfolding contains in_probation
        is_staked kind head addr = do
          node_type ← or_fail (node_type_of kind) unknown_node_type
          on_probation ← map_error query (in_probation w c x views head addr)
          if on_probation
              then err under_probation
              else map_error query (contains w c x views head addr node_type)

        -- `ensureStaked`.
        unfoldable pub ensure_staked :
            Pooling
            → Kind
            → Header
            → Address
            → c.PrivateKey
            → o.World
            → Outcome Error (Unit {0}) × o.World
        ensure_staked add kind head addr key v =
            unless_staked add kind head addr key v (is_staked kind head addr)
