-- ===== src/Watchtower/Patrol/InOrder.antt =====
-- What a watchtower has gone through while it runs.
use availproject_op_evm.Prelude.{ℕ, Option, none, some, List, [], ◌∷◌, ◌++◌}
use availproject_op_evm.Chain.Types.{Block}
use availproject_op_evm.Extra.Encoding.{Wire}
use availproject_op_evm.Avail.Extract.{AvailBlock, CallIndex, Codec}
use availproject_op_evm.Avail.Extract.InOrder.{Carries, HasBadBlob}
use availproject_op_evm.Watchtower.Patrol.{
  Local, Arrival, avail_block, Ending, waiting, crashed, run_watch_tower,
}

module _ (w : Wire) (l : Local) (c : Codec) (app_id : ℕ) (call : CallIndex) where
  -- A stream, and the blocks in it that reach a watchtower: none of an Avail block that has a blob of
  -- the application that is no block, and otherwise those that nodes sent, in order.
  pub data Brings : List Arrival → List Block → Type 0 where
    quiet : Brings [] []
    sent :
        (b : AvailBlock) (blks : List Block) {arrivals : List Arrival} {more : List Block}
        → Carries c app_id call b.extrinsics blks
        → Brings arrivals more
        → Brings (avail_block b ∷ arrivals) (blks ++ more)
    broken :
        (b : AvailBlock) {arrivals : List Arrival} {more : List Block}
        → HasBadBlob c app_id call b.extrinsics
        → Brings arrivals more
        → Brings (avail_block b ∷ arrivals) more

  -- How the loop is after it went through blocks.
  abbrev pub waits_after : Option l.World → Ending w l
  waits_after none = crashed
  waits_after (some v) = waiting v

  -- How the loop goes on after the blocks of an Avail block.
  abbrev goes_on : List Arrival → Option l.World → Ending w l
  goes_on arrivals none = crashed
  goes_on arrivals (some v) = run_watch_tower w l c app_id call arrivals v
