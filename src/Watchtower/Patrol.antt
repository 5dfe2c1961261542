-- ===== src/Watchtower/Patrol.antt =====
-- consensus/avail/watchtower.go: the loop in which a watchtower applies and checks what Avail has, and
-- accuses what does not pass.
pub mod InOrder
pub mod Unaccused
use availproject_op_evm.Prelude.{
  ℕ, Bool, true, false, Option, none, some, List, [], ◌∷◌, Outcome, ok, err, panic,
}
use availproject_op_evm.Chain.Types.{Block}
use availproject_op_evm.Extra.Encoding.{Wire}
use availproject_op_evm.Fraud
use availproject_op_evm.Fraud.{is_fraud_proof_block}
use availproject_op_evm.Avail.Extract
use availproject_op_evm.Avail.Extract.{AvailBlock, CallIndex, Codec, block_from_avail}

-- What `Check` says of a block. An error whose text says that the signer does not belong to the active
-- sequencers is told apart.
pub data Verdict : Type 0 where
  valid not_of_sequencers faulty : Verdict

-- What the loop calls: the three methods of the watchtower, of which `Apply` and `Check` may panic
-- and change the chain, the query of the staked watchtowers, of which `none` is an error, the sender
-- to Avail, and the unstaking of the node.
pub record Local : Type 1 where
  pub World : Type 0
  pub apply : Block → World → Option (Bool × World)
  pub is_staked : World → Option Bool
  pub check : Block → World → Option (Verdict × World)
  pub construct : Block → World → Outcome (Unit {0}) Block × World
  pub send : Block → World → Bool × World
  pub unstake : World → Bool × World

pub data Arrival : Type 0 where
  avail_block : AvailBlock → Arrival
  closed : Arrival

module _ (w : Wire) (l : Local) where
  -- How the loop ends: the node was closed, or it still waits for a block, or it panics.
  pub data Ending : Type 0 where
    stopped waiting : l.World → Ending
    crashed : Ending

  -- The proof that was built is submitted; an error is logged.
  abbrev pub submit : Outcome (Unit {0}) Block × l.World → Option l.World
  submit (ok proof, v) = some (l.send proof v).1
  submit (err e, v) = some v
  submit (panic, v) = none

  -- A fraud proof is not accused.
  abbrev pub accuse_unless_proof : Block → l.World → Outcome Fraud.Error Bool → Option l.World
  accuse_unless_proof blk v (ok true) = some v
  accuse_unless_proof blk v (ok false) = submit (l.construct blk v)
  accuse_unless_proof blk v (err e) = submit (l.construct blk v)
  accuse_unless_proof blk v panic = none

  abbrev pub on_verdict : Block → Option (Verdict × l.World) → Option l.World
  on_verdict blk none = none
  on_verdict blk (some (valid, v)) = some v
  on_verdict blk (some (not_of_sequencers, v)) = some v
  on_verdict blk (some (faulty, v)) = accuse_unless_proof blk v (is_fraud_proof_block w blk)

  -- Only a staked watchtower goes on to the check.
  abbrev pub if_staked : Block → l.World → Option Bool → Option l.World
  if_staked blk v (some true) = on_verdict blk (l.check blk v)
  if_staked blk v (some false) = some v
  if_staked blk v none = some v

  -- An error of `Apply` is logged.
  abbrev pub once_applied : Block → Option (Bool × l.World) → Option l.World
  once_applied blk none = none
  once_applied blk (some (done, v)) = if_staked blk v (l.is_staked v)

  -- The body of the loop over the blocks; `none` is a panic. The block is applied whatever it is.
  unfoldable pub patrol_block : Block → l.World → Option l.World
  patrol_block blk v = once_applied blk (l.apply blk v)

  abbrev pub then_patrol : Option l.World → (l.World → Option l.World) → Option l.World
  then_patrol none f = none
  then_patrol (some v) f = f v

  unfoldable pub patrol_blocks : List Block → l.World → Option l.World
  unfolding patrol_block
  patrol_blocks [] v = some v
  patrol_blocks (blk ∷ blks) v = then_patrol (patrol_block blk v) (λ v'. patrol_blocks blks v')

  module _ (c : Codec) (app_id : ℕ) (call : CallIndex) where
    -- The loop of `runWatchTower` over what arrives. An Avail block that cannot be read is passed
    -- over, and an error of the unstaking is logged.
    unfoldable pub run_watch_tower : List Arrival → l.World → Ending
    unfolding patrol_blocks
    run_watch_tower [] v = waiting v
    run_watch_tower (closed ∷ arrivals) v = stopped (l.unstake v).1
    run_watch_tower (avail_block b ∷ arrivals) v = elim (block_from_avail c app_id call b) [
      | err e ↦ run_watch_tower arrivals v
      | panic ↦ crashed
      | ok blks ↦ elim (patrol_blocks blks v) [
        | none ↦ crashed
        | some v' ↦ run_watch_tower arrivals v'
      ]
    ]
