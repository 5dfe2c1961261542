-- ===== src/Node/Sync/UpToDate.antt =====
-- What a node has written when it is in sync, and when it never is.
use availproject_op_evm.Prelude.{
  ℕ, ◌≡◌, ◌⊎◌, inl, inr, refl, sym, ◌≢◌, ◌∙◌, true, false, Option, none, some, List, [], ◌∷◌, ◌++◌,
  Outcome, ok, err, panic, ◌==◌,
}
use availproject_op_evm.Chain.Types.{Block}
use availproject_op_evm.Extra.Encoding.{Wire}
use availproject_op_evm.Avail.Extract.{AvailBlock, CallIndex, Codec, block_from_avail}
use availproject_op_evm.Avail.Extract.InOrder.{Carries, HasBadBlob, block_from_avail-bad}
use availproject_op_evm.Node.Sync.{
  Local, Arrival, avail_block, closed, Ending, returned, crashed, sync_blocks, blocks_of_round,
  sync_loop, sync_node,
}

module _ (w : Wire) (l : Local) (c : Codec) (app_id : ℕ) (call : CallIndex) where
  -- A stream up to the Avail block of that number, and the blocks that nodes sent in it, in order.
  pub data Reaches (latest : ℕ) : List Arrival → List Block → Type 0 where
    last :
        (b : AvailBlock) {blks : List Block} {later : List Arrival}
        → (latest == b.number) ≡ true
        → Carries c app_id call b.extrinsics blks
        → Reaches latest (avail_block b ∷ later) blks
    before :
        (b : AvailBlock) (blks : List Block) {arrivals : List Arrival} {more : List Block}
        → (latest == b.number) ≡ false
        → Carries c app_id call b.extrinsics blks
        → Reaches latest arrivals more
        → Reaches latest (avail_block b ∷ arrivals) (blks ++ more)

  -- How the loop ends, given what writing the blocks comes to.
  abbrev ended_with : ℕ → Option l.World → Ending w l
  ended_with latest none = crashed
  ended_with latest (some v) = returned latest v

  -- A round of `syncNode` that writes blocks: it goes on, it returns, or the node panics.
  round-goes :
      (latest next : ℕ) (b : AvailBlock) (later : List Arrival) (blks : List Block) (v v' : l.World)
      → blocks_of_round w l (block_from_avail c app_id call b) ≡ ok blks
      → sync_blocks w l blks v ≡ some v'
      → (latest == b.number) ≡ false
      → sync_node w l c app_id call latest next (avail_block b ∷ later) v
        ≡ sync_node w l c app_id call latest b.number later v'
  unfolding sync_node
  round-goes latest next b later blks v v' round done other =
      rw (round, sync_loop) (rw done (rw other refl))

  round-crashes :
      (latest next : ℕ) (b : AvailBlock) (later : List Arrival) (blks : List Block) (v : l.World)
      → blocks_of_round w l (block_from_avail c app_id call b) ≡ ok blks
      → sync_blocks w l blks v ≡ none
      → sync_node w l c app_id call latest next (avail_block b ∷ later) v ≡ crashed
  unfolding sync_node
  round-crashes latest next b later blks v round crash = rw (round, sync_loop) (rw crash refl)

  round-given_up :
      (latest next : ℕ) (b : AvailBlock) (later : List Arrival) (v : l.World)
      → blocks_of_round w l (block_from_avail c app_id call b) ≡ err tt
      → sync_node w l c app_id call latest next (avail_block b ∷ later) v
        ≡ sync_node w l c app_id call latest next later v
  unfolding sync_node
  round-given_up latest next b later v round = rw (round, sync_loop) refl

  round-panics :
      (latest next : ℕ) (b : AvailBlock) (later : List Arrival) (v : l.World)
      → blocks_of_round w l (block_from_avail c app_id call b) ≡ panic
      → sync_node w l c app_id call latest next (avail_block b ∷ later) v ≡ crashed
  unfolding sync_node
  round-panics latest next b later v round = rw (round, sync_loop) refl

  -- Every Avail block of that number has a blob of the application that is no block.
  abbrev pub OnlyBad : ℕ → List Arrival → Type 0
  OnlyBad latest [] = Unit
  OnlyBad latest (closed ∷ arrivals) = ⊥
  OnlyBad latest (avail_block b ∷ arrivals) =
      (((latest == b.number) ≡ false) ⊎ HasBadBlob c app_id call b.extrinsics)
      × OnlyBad latest arrivals

  waiting-ne :
      (latest next n : ℕ) (v v' : l.World)
      → sync_node w l c app_id call latest next [] v ≢ returned n v'
  unfolding sync_node
  waiting-ne latest next n v v' e = cc e

  -- A round for another number returns only if the rounds after it do.
  module _ (latest next n : ℕ) (b : AvailBlock) (later : List Arrival) (v v' : l.World)
      (other : (latest == b.number) ≡ false)
      (again : (k : ℕ) (u : l.World)
        → sync_node w l c app_id call latest k later u ≢ returned n v') where
    writing-never :
        (blks : List Block)
        → blocks_of_round w l (block_from_avail c app_id call b) ≡ ok blks
        → (written : Option l.World) → sync_blocks w l blks v ≡ written
        → sync_node w l c app_id call latest next (avail_block b ∷ later) v ≢ returned n v'
    writing-never blks round none crash e =
        cc (sym (round-crashes latest next b later blks v round crash) ∙ e)
    writing-never blks round (some u) done e =
        again b.number u (sym (round-goes latest next b later blks v u round done other) ∙ e)

    round-never :
        (r : Outcome (Unit {0}) (List Block))
        → blocks_of_round w l (block_from_avail c app_id call b) ≡ r
        → sync_node w l c app_id call latest next (avail_block b ∷ later) v ≢ returned n v'
    round-never (ok blks) round e = writing-never blks round (sync_blocks w l blks v) refl e
    round-never (err tt) round e =
        again next v (sym (round-given_up latest next b later v round) ∙ e)
    round-never panic round e = cc (sym (round-panics latest next b later v round) ∙ e)

  -- If the latest Avail block at the start has a blob of the application that is no block, the node
  -- never comes in sync: whatever other Avail blocks come, before it or after it, it does not return.
  pub sync_node-never :
      (latest next n : ℕ) (arrivals : List Arrival) (v v' : l.World)
      → OnlyBad latest arrivals
      → sync_node w l c app_id call latest next arrivals v ≢ returned n v'
  sync_node-never latest next n [] v v' bad e = waiting-ne latest next n v v' e
  sync_node-never latest next n (closed ∷ arrivals) v v' bad e = absurd bad
  sync_node-never latest next n (avail_block b ∷ arrivals) v v' (inr broken, bad) e =
      sync_node-never latest next n arrivals v v' bad (
        sym (
          round-given_up latest next b arrivals v
            (rw (block_from_avail-bad c app_id call b broken) refl))
        ∙ e)
  sync_node-never latest next n (avail_block b ∷ arrivals) v v' (inl other, bad) e =
      round-never latest next n b arrivals v v' other
        (λ k u. sync_node-never latest k n arrivals u v' bad)
        (blocks_of_round w l (block_from_avail c app_id call b)) refl e
