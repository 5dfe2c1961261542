-- ===== src/Sequencer/Round.antt =====
-- consensus/avail/sequencer.go: what a sequencer does on each Avail block, the body of the loop of
-- `Run` after the blocks are extracted.
use availproject_op_evm.Prelude.{
  ℕ, ◌-◌, ◌/◌, ◌%◌, Bool, true, false, not, ◌&&◌, ◌||◌, Option, none, some, List, [], ◌∷◌, Outcome,
  ok, err, panic, ltb, ◌==◌, if◌then◌else◌,
}
use availproject_op_evm.Chain.Types.{Hash, Header, Block}
use availproject_op_evm.Extra.Encoding.{Wire}
use availproject_op_evm.Fraud
use availproject_op_evm.Fraud.{
  Fraud, is_dispute_resolution_ended, end_dispute_resolution, check_and_set_fraud_block,
  check_and_slash, is_fraud_proof_block,
}

abbrev pub avail_block_window_len : ℕ
avail_block_window_len = 7

-- What the worker asks of the rest of the node while it handles an Avail block: the world is
-- everything outside of the worker, the cache of the sequencers included. A write tells whether it
-- succeeded; an answer `none` is an error of the query in `contains_self`, and a panic in
-- `is_next_sequencer`.
pub record Node : Type 1 where
  pub World : Type 0
  pub is_known : World → Hash → Bool
  pub check : World → Block → Bool
  pub write_block : Block → World → Bool × World
  pub reset_with_headers : Header → World → World
  pub contains_self : World → Option Bool × World
  pub slashing : World → Fraud.Services
  pub after_slash : List Block → World → World
  pub is_next_sequencer : World → Option Bool × World

module _ (w : Wire) (node : Node) (is_bootstrap : Bool) where
  -- The state that `Run` keeps: of the worker, the Avail block at which it first saw its stake.
  pub record Worker : Type 0 where
    pub world : node.World
    pub fraud : Fraud
    pub avail_block_num_when_staked : Option ℕ

  abbrev pub reset_if : Header → Bool × node.World → node.World
  reset_if h (true, v) = node.reset_with_headers h v
  reset_if h (false, v) = v

  -- `Check`, `WriteBlock` and the pool's reset.
  abbrev pub check_and_write : Block → node.World → node.World
  check_and_write blk v =
      if node.check v blk then reset_if blk.header (node.write_block blk v) else v

  abbrev pub end_if : Bool → Fraud → Fraud
  end_if true f = end_dispute_resolution f
  end_if false f = f

  abbrev pub written_to : Block → Worker → Worker
  written_to blk s = record s { world = check_and_write blk s.world }

  -- Whether the block is a fraud proof is looked at if its hash is known.
  abbrev pub unless_known : Block → Worker → Outcome Fraud.Error Bool → Option Worker
  unless_known blk s (ok is_proof) =
      if not (node.is_known s.world blk.header.hash) || not is_proof
      then some (written_to blk s)
      else some s
  unless_known blk s (err e) = none
  unless_known blk s panic =
      if node.is_known s.world blk.header.hash then none else some (written_to blk s)

  abbrev pub ended_by : Block → Worker → Outcome Fraud.Error Bool → Option Worker
  ended_by blk s (ok ended) =
      unless_known blk (record s { fraud = end_if ended s.fraud }) (is_fraud_proof_block w blk)
  ended_by blk s (err e) = none
  ended_by blk s panic = none

  -- The body of the loop over the blocks; `none` is a panic of the node.
  unfoldable pub take_block : Block → Worker → Option Worker
  unfolding is_fraud_proof_block
  take_block blk s = ended_by blk s (is_dispute_resolution_ended w blk.header s.fraud)

  abbrev pub and_then : Option Worker → (Worker → Option Worker) → Option Worker
  and_then none f = none
  and_then (some s) f = f s

  unfoldable pub take_blocks : List Block → Worker → Option Worker
  unfolding take_block
  take_blocks [] s = some s
  take_blocks (blk ∷ blks) s = and_then (take_block blk s) (λ s'. take_blocks blks s')

  abbrev pub enable : Bool → Worker → Worker
  enable b s = record s { fraud = record s.fraud { block_production_enabled = b } }

  -- The end of the loop's body: on its turn, the node produces blocks but for the last Avail block of
  -- a window.
  abbrev pub turn_by : ℕ → Worker → Option Bool × node.World → Option Worker
  turn_by number s (none, v) = none
  turn_by number s (some is_mine, v) = some (
      enable (is_mine && ltb (number % avail_block_window_len) (avail_block_window_len - 1))
        (record s { world = v }))

  unfoldable pub take_turn : ℕ → Worker → Option Worker
  take_turn number s = turn_by number s (node.is_next_sequencer s.world)

  abbrev pub slashed_by : ℕ → Worker → Outcome Fraud.Error (List Block) × Fraud → Option Worker
  slashed_by number s (ok blks, f) =
      take_turn number (record s { world = node.after_slash blks s.world; fraud = f })
  slashed_by number s (err e, f) = some (record s { fraud = f })
  slashed_by number s (panic, f) = none

  -- `CheckAndSlash` and, unless it fails, the turn.
  unfoldable pub slash_and_turn : ℕ → Worker → Option Worker
  unfolding take_turn
  slash_and_turn number s = slashed_by number s (check_and_slash w (node.slashing s.world) s.fraud)

  abbrev pub first_seen : ℕ → Option ℕ → ℕ
  first_seen number none = number
  first_seen number (some k) = k

  -- What follows once the node sees its stake: it remembers the Avail block, and does nothing more
  -- before the next window unless it is the bootstrap sequencer.
  unfoldable pub staked : ℕ → Worker → Option Worker
  unfolding slash_and_turn
  staked number s =
      let seen = first_seen number s.avail_block_num_when_staked in
      let s' = record s { avail_block_num_when_staked = some seen } in
      if not is_bootstrap && (seen / avail_block_window_len == number / avail_block_window_len)
      then some s'
      else slash_and_turn number s'

  abbrev pub seen_by : ℕ → Worker → Option Bool × node.World → Option Worker
  seen_by number s (none, v) = some (record s { world = v })
  seen_by number s (some false, v) = some (record s { world = v })
  seen_by number s (some true, v) = staked number (record s { world = v })

  -- Is the node among the active sequencers?
  unfoldable pub ask_stake : ℕ → Worker → Option Worker
  unfolding staked
  ask_stake number s = seen_by number s (node.contains_self s.world)

  abbrev pub searched_by : ℕ → Worker → Outcome Fraud.Error Bool × Fraud → Option Worker
  searched_by number s (ok found, f) = ask_stake number (record s { fraud = f })
  searched_by number s (err e, f) = none
  searched_by number s (panic, f) = none

  -- The second half of the body, after the blocks.
  unfoldable pub after_blocks : ℕ → List Block → Worker → Option Worker
  unfolding ask_stake
  after_blocks number blks s = searched_by number s (check_and_set_fraud_block w blks s.fraud)

  -- The body of the loop of `Run` for the Avail block of a number and the blocks extracted from it.
  unfoldable pub handle_avail_block : ℕ → List Block → Worker → Option Worker
  unfolding take_blocks after_blocks
  handle_avail_block number blks s =
      and_then (take_blocks blks s) (λ s'. after_blocks number blks s')
