-- ===== src/Node/Sync.antt =====
-- consensus/avail/syncer.go: the loop by which a node writes what Avail has, before it takes part.
pub mod Written
pub mod UpToDate
use availproject_op_evm.Prelude.{
  ℕ, Bool, true, false, Option, none, some, List, [], ◌∷◌, ◌++◌, Outcome, ok, err, panic, ◌==◌,
  if◌then◌else◌,
}
use availproject_op_evm.Chain.Types.{Header, Block}
use availproject_op_evm.Extra.Encoding.{Wire}
use availproject_op_evm.Fraud
use availproject_op_evm.Fraud.{is_fraud_proof_block}
use availproject_op_evm.Avail.Extract
use availproject_op_evm.Avail.Extract.{
  AvailBlock, CallIndex, Codec, no_extrinsic_found, block_from_avail,
}

-- What the loop asks of the rest of the node: the validator's check, which reads through the chain's
-- caches, the chain's write and the unstaking of the node. A call tells whether it succeeded; `none` is
-- a panic.
pub record Local : Type 1 where
  pub World : Type 0
  pub check : Block → World → Option (Bool × World)
  pub write_block : Block → World → Option (Bool × World)
  pub unstake : World → Bool × World

-- What the `select` of a round receives: a block of the stream, or that the node is closed.
pub data Arrival : Type 0 where
  avail_block : AvailBlock → Arrival
  closed : Arrival

module _ (w : Wire) (l : Local) where
  -- How the loop ends. It returns the next Avail block number, with no error in any case; or it still
  -- waits for a block; or the node panics.
  pub data Ending : Type 0 where
    returned : ℕ → l.World → Ending
    waiting : l.World → Ending
    crashed : Ending

  abbrev pub logged : Option (Bool × l.World) → Option l.World
  logged none = none
  logged (some (done, v)) = some v

  -- A block that passes the check is written; an error of either call is logged.
  abbrev pub if_valid : Block → Option (Bool × l.World) → Option l.World
  if_valid blk none = none
  if_valid blk (some (false, v)) = some v
  if_valid blk (some (true, v)) = logged (l.write_block blk v)

  abbrev pub checked_write : Block → l.World → Option l.World
  checked_write blk v = if_valid blk (l.check blk v)

  abbrev pub unless_proof : Block → l.World → Outcome Fraud.Error Bool → Option l.World
  unless_proof blk v (ok is_proof) = if is_proof then some v else checked_write blk v
  unless_proof blk v (err e) = none
  unless_proof blk v panic = none

  -- The body of the loop over the blocks of an Avail block; `none` is a panic.
  unfoldable pub sync_block : Block → l.World → Option l.World
  sync_block blk v = unless_proof blk v (is_fraud_proof_block w blk)

  abbrev pub then_sync : Option l.World → (l.World → Option l.World) → Option l.World
  then_sync none f = none
  then_sync (some v) f = f v

  unfoldable pub sync_blocks : List Block → l.World → Option l.World
  unfolding sync_block
  sync_blocks [] v = some v
  sync_blocks (blk ∷ blks) v = then_sync (sync_block blk v) (λ v'. sync_blocks blks v')

  -- The blocks that a round works on; an error gives the round up.
  abbrev pub blocks_of_round : Outcome Extract.Error (List Block) → Outcome (Unit {0}) (List Block)
  blocks_of_round (ok blks) = ok blks
  blocks_of_round (err no_extrinsic_found) = ok []
  blocks_of_round (err e) = err tt
  blocks_of_round panic = panic

  abbrev pub after_unstake : ℕ → Bool × l.World → Ending
  after_unstake next (true, v) = returned 0 v
  after_unstake next (false, v) = returned next v

  module _ (c : Codec) (app_id : ℕ) (call : CallIndex) where
    -- The loop of `syncNodeUntil` over what arrives, with the condition to stop on, which may change
    -- the world.
    unfoldable pub sync_loop :
        (AvailBlock → l.World → Bool × l.World) → ℕ → List Arrival → l.World → Ending
    unfolding sync_blocks
    sync_loop stop next [] v = waiting v
    sync_loop stop next (closed ∷ arrivals) v = after_unstake next (l.unstake v)
    sync_loop stop next (avail_block b ∷ arrivals) v =
        elim (blocks_of_round (block_from_avail c app_id call b)) [
          | panic ↦ crashed
          | err e ↦ sync_loop stop next arrivals v
          | ok blks ↦ elim (sync_blocks blks v) [
            | none ↦ crashed
            | some v' ↦ elim (stop b v').0 [
              | true ↦ returned b.number (stop b v').1
              | false ↦ sync_loop stop b.number arrivals (stop b v').1
            ]
          ]
        ]

    -- The condition of `syncNode`: the block of the number that was the latest one at the start.
    abbrev pub is_latest : ℕ → AvailBlock → l.World → Bool × l.World
    is_latest latest b v = (latest == b.number, v)

    -- `syncNode`, once the latest number and the next block are known.
    unfoldable pub sync_node : ℕ → ℕ → List Arrival → l.World → Ending
    unfolding sync_loop
    sync_node latest next arrivals v = sync_loop (is_latest latest) next arrivals v
