-- ===== src/Sequencer/Turn.antt =====
-- consensus/avail/sequencer.go: when a sequencer may produce blocks.
pub mod Enabling
use availproject_op_evm.Prelude.{
  ℕ, ◌/◌, ◌%◌, ◌<◌, ◌≡◌, ◌≢◌, ◌↔◌, ◌⊎◌, refl, sym, subst, ◌∙◌, Bool, true, false, not, ◌&&◌, ◌||◌,
  Option, none, some, List, [], ◌∷◌, Outcome, ok, err, panic, ltb, ◌==◌, arith, if◌then◌else◌,
}
use availproject_op_evm.Chain.Types.{Block}
use availproject_op_evm.Extra.Encoding.{Wire}
use availproject_op_evm.Fraud
use availproject_op_evm.Fraud.{
  is_fraud_proof_block, Fraud, is_ready_to_slash, is_dispute_resolution_ended,
  end_dispute_resolution, set_chain_status, check_and_set_fraud_block, check_and_slash,
}
use availproject_op_evm.Sequencer.Round.{
  Node, Worker, avail_block_window_len, first_seen, written_to, unless_known, ended_by, take_block,
  and_then, take_blocks, turn_by, take_turn, slashed_by, slash_and_turn, staked, seen_by, ask_stake,
  searched_by, after_blocks, handle_avail_block, end_if,
}

module _ (w : Wire) (node : Node) (is_bootstrap : Bool) where
  abbrev pub W : Type 0
  W = Worker w node is_bootstrap

  -- What holds of the worker, if the node has not panicked.
  abbrev pub Holds : (W → Type 0) → Option W → Type 0
  Holds P none = Unit
  Holds P (some s) = P s

  pub and_then-Holds :
      (P Q : W → Type 0) (o : Option W) (f : W → Option W)
      → Holds P o
      → ((s : W) → P s → Holds Q (f s))
      → Holds Q (and_then w node is_bootstrap o f)
  and_then-Holds P Q none f held next = tt
  and_then-Holds P Q (some s) f held next = next s held

  -- The worker first saw its stake at that Avail block.
  abbrev pub IsSeenAt : ℕ → W → Type 0
  IsSeenAt k s = s.avail_block_num_when_staked ≡ some k

  pub if-Holds :
      (P : W → Type 0) (b : Bool) (x y : Option W)
      → Holds P x
      → Holds P y
      → Holds P (if b then x else y)
  if-Holds P true x y held_x held_y = held_x
  if-Holds P false x y held_x held_y = held_y

  unless_known-seen :
      (k : ℕ) (blk : Block) (s : W) (r : Outcome Fraud.Error Bool)
      → IsSeenAt k s
      → Holds (IsSeenAt k) (unless_known w node is_bootstrap blk s r)
  unless_known-seen k blk s (ok is_proof) seen =
      if-Holds (IsSeenAt k) (not (node.is_known s.world blk.header.hash) || not is_proof)
        (some (written_to w node is_bootstrap blk s)) (some s) seen seen
  unless_known-seen k blk s (err e) seen = tt
  unless_known-seen k blk s panic seen =
      if-Holds (IsSeenAt k) (node.is_known s.world blk.header.hash) none
        (some (written_to w node is_bootstrap blk s)) tt seen

  ended_by-seen :
      (k : ℕ) (blk : Block) (s : W) (r : Outcome Fraud.Error Bool)
      → IsSeenAt k s
      → Holds (IsSeenAt k) (ended_by w node is_bootstrap blk s r)
  ended_by-seen k blk s (ok ended) seen =
      unless_known-seen k blk (record s { fraud = end_if w node is_bootstrap ended s.fraud })
        (is_fraud_proof_block w blk) seen
  ended_by-seen k blk s (err e) seen = tt
  ended_by-seen k blk s panic seen = tt

  take_blocks-seen :
      (k : ℕ) (blks : List Block) (s : W)
      → IsSeenAt k s
      → Holds (IsSeenAt k) (take_blocks w node is_bootstrap blks s)
  unfolding take_blocks take_block
  take_blocks-seen k [] s seen = seen
  take_blocks-seen k (blk ∷ blks) s seen =
      and_then-Holds (IsSeenAt k) (IsSeenAt k) _ _
        (ended_by-seen k blk s (is_dispute_resolution_ended w blk.header s.fraud) seen)
        (λ s' seen'. take_blocks-seen k blks s' seen')

  turn_by-seen :
      (k number : ℕ) (s : W) (r : Option Bool × node.World)
      → IsSeenAt k s
      → Holds (IsSeenAt k) (turn_by w node is_bootstrap number s r)
  turn_by-seen k number s (none, v) seen = tt
  turn_by-seen k number s (some mine, v) seen = seen

  slashed_by-seen :
      (k number : ℕ) (s : W) (r : Outcome Fraud.Error (List Block) × Fraud)
      → IsSeenAt k s
      → Holds (IsSeenAt k) (slashed_by w node is_bootstrap number s r)
  unfolding take_turn
  slashed_by-seen k number s (ok blks, f) seen =
      turn_by-seen k number (record s { world = node.after_slash blks s.world; fraud = f })
        (node.is_next_sequencer (node.after_slash blks s.world)) seen
  slashed_by-seen k number s (err e, f) seen = seen
  slashed_by-seen k number s (panic, f) seen = tt

  staked-seen :
      (k number : ℕ) (s : W)
      → IsSeenAt k s
      → Holds (IsSeenAt k) (staked w node is_bootstrap number s)
  unfolding staked slash_and_turn
  staked-seen k number s seen =
      let first = first_seen w node is_bootstrap number s.avail_block_num_when_staked in
      let s' : W = record s { avail_block_num_when_staked = some first } in
      let same : some first ≡ some k = rw seen refl in
      if-Holds (IsSeenAt k)
        (not is_bootstrap && (first / avail_block_window_len == number / avail_block_window_len))
        (some s')
        (slashed_by w node is_bootstrap number s'
          (check_and_slash w (node.slashing s.world) s.fraud))
        same (slashed_by-seen k number s' (check_and_slash w (node.slashing s.world) s.fraud) same)

  seen_by-seen :
      (k number : ℕ) (s : W) (r : Option Bool × node.World)
      → IsSeenAt k s
      → Holds (IsSeenAt k) (seen_by w node is_bootstrap number s r)
  seen_by-seen k number s (none, v) seen = seen
  seen_by-seen k number s (some false, v) seen = seen
  seen_by-seen k number s (some true, v) seen = staked-seen k number (record s { world = v }) seen

  searched_by-seen :
      (k number : ℕ) (s : W) (r : Outcome Fraud.Error Bool × Fraud)
      → IsSeenAt k s
      → Holds (IsSeenAt k) (searched_by w node is_bootstrap number s r)
  unfolding ask_stake
  searched_by-seen k number s (ok found, f) seen =
      seen_by-seen k number (record s { fraud = f }) (node.contains_self s.world) seen
  searched_by-seen k number s (err e, f) seen = tt
  searched_by-seen k number s (panic, f) seen = tt

  -- The Avail block at which the node first saw its stake never changes again, whatever blocks come
  -- and however the handling of an Avail block ends, unless the node panics.
  pub handle_avail_block-seen :
      (k number : ℕ) (blks : List Block) (s : W)
      → s.avail_block_num_when_staked ≡ some k
      → Holds
          (λ s'. s'.avail_block_num_when_staked ≡ some k)
          (handle_avail_block w node is_bootstrap number blks s)
  unfolding handle_avail_block after_blocks
  handle_avail_block-seen k number blks s seen =
      and_then-Holds (IsSeenAt k) (IsSeenAt k) _ _ (take_blocks-seen k blks s seen)
        (λ s' seen'. searched_by-seen k number s' (check_and_set_fraud_block w blks s'.fraud) seen')

  -- A node that sees its stake, is past the window in which it first saw it or is the bootstrap
  -- sequencer, and has nothing to slash, ends the handling of an Avail block with block production
  -- enabled exactly if it is the next sequencer and the Avail block is not the last one of its window
  -- of seven.
  pub ask_stake-turn :
      (number : ℕ) (s : W) (v v' : node.World) (is_mine : Bool)
      → node.contains_self s.world ≡ (some true, v)
      → (is_bootstrap ≡ true)
        ⊎ (first_seen w node is_bootstrap number s.avail_block_num_when_staked
              / avail_block_window_len
            ≢ number / avail_block_window_len)
      → is_ready_to_slash s.fraud ≡ false
      → node.is_next_sequencer (node.after_slash [] v) ≡ (some is_mine, v')
      → (s' : W) × (ask_stake w node is_bootstrap number s ≡ some s')
        × ((s'.fraud.block_production_enabled ≡ true)
            ↔ ((is_mine ≡ true) × (number % avail_block_window_len < 6)))
  unfolding ask_stake staked slash_and_turn take_turn check_and_slash
  ask_stake-turn number s v v' is_mine asked past calm next = (
    record s {
      world = v';
      fraud = record s.fraud {
        block_production_enabled = (is_mine && ltb (number % avail_block_window_len) 6);
      };
      avail_block_num_when_staked =
          some (first_seen w node is_bootstrap number s.avail_block_num_when_staked);
    },
    rw (asked, joined, calm, next) refl,
    ground arith,
  )
    where
      joined :
          (not is_bootstrap
            && (first_seen w node is_bootstrap number s.avail_block_num_when_staked
                  / avail_block_window_len
                == number / avail_block_window_len))
          ≡ false
      joined = ground (arith, past)

  abbrev IsEnabled : W → Type 0
  IsEnabled s = s.fraud.block_production_enabled ≡ true

  end-IsEnabled : (s : W) → IsEnabled (record s { fraud = end_dispute_resolution s.fraud })
  unfolding end_dispute_resolution set_chain_status
  end-IsEnabled s = refl

  pub check_and_set_fraud_block-enabled :
      (blks : List Block) (f : Fraud)
      → (check_and_set_fraud_block w blks f).1.block_production_enabled ≡ f.block_production_enabled
  unfolding check_and_set_fraud_block
  check_and_set_fraud_block-enabled [] f = refl
  check_and_set_fraud_block-enabled (blk ∷ blks) f =
      ground (arith, check_and_set_fraud_block-enabled blks f)

  ended-IsEnabled :
      (blk : Block) (s : W)
      → is_dispute_resolution_ended w blk.header s.fraud ≡ ok true
      → Holds IsEnabled (take_block w node is_bootstrap blk s)
  unfolding take_block
  ended-IsEnabled blk s ended =
      subst (λ r. Holds IsEnabled (ended_by w node is_bootstrap blk s r)) (sym ended)
        (by_proof (record s { fraud = end_dispute_resolution s.fraud }) (is_fraud_proof_block w blk)
          (end-IsEnabled s))
    where
      by_proof :
          (s' : W) (r : Outcome Fraud.Error Bool)
          → IsEnabled s'
          → Holds IsEnabled (unless_known w node is_bootstrap blk s' r)
      by_proof s' (ok is_proof) h =
          if-Holds IsEnabled (not (node.is_known s'.world blk.header.hash) || not is_proof)
            (some (written_to w node is_bootstrap blk s')) (some s') h h
      by_proof s' (err e) h = tt
      by_proof s' panic h =
          if-Holds IsEnabled (node.is_known s'.world blk.header.hash) none
            (some (written_to w node is_bootstrap blk s')) tt h

  unstaked-IsEnabled :
      (number : ℕ) (blks : List Block) (s : W)
      → (node.contains_self s.world).0 ≡ some false
      → IsEnabled s
      → Holds IsEnabled (after_blocks w node is_bootstrap number blks s)
  unfolding after_blocks ask_stake
  unstaked-IsEnabled number blks s unstaked enabled =
      by_search (check_and_set_fraud_block w blks s.fraud)
        (check_and_set_fraud_block-enabled blks s.fraud ∙ enabled)
    where
      by_stake :
          (s' : W) (r : Option Bool × node.World)
          → r.0 ≡ some false
          → IsEnabled s'
          → Holds IsEnabled (seen_by w node is_bootstrap number s' r)
      by_stake s' (none, v) asked h = h
      by_stake s' (some false, v) asked h = h
      by_stake s' (some true, v) asked h = absurd (cc asked)

      by_search :
          (r : Outcome Fraud.Error Bool × Fraud)
          → r.1.block_production_enabled ≡ true
          → Holds IsEnabled (searched_by w node is_bootstrap number s r)
      by_search (ok found, f) h =
          by_stake (record s { fraud = f }) (node.contains_self s.world) unstaked h
      by_search (err e, f) h = tt
      by_search (panic, f) h = tt

  -- An Avail block whose only block ends the dispute that the node holds leaves block production
  -- enabled, whatever its number, on a node that is told that it is not among the active sequencers
  -- when it asks after that block; unless the node panics.
  pub handle_avail_block-ended :
      (number : ℕ) (blk : Block) (s : W)
      → is_dispute_resolution_ended w blk.header s.fraud ≡ ok true
      → ((s1 : W)
          → take_blocks w node is_bootstrap (blk ∷ []) s ≡ some s1
          → (node.contains_self s1.world).0 ≡ some false)
      → Holds
          (λ s'. s'.fraud.block_production_enabled ≡ true)
          (handle_avail_block w node is_bootstrap number (blk ∷ []) s)
  unfolding handle_avail_block take_blocks
  handle_avail_block-ended number blk s ended unstaked =
      after_taking (take_blocks w node is_bootstrap (blk ∷ []) s) refl
        (and_then-Holds IsEnabled IsEnabled _ _ (ended-IsEnabled blk s ended) (λ s' h. h))
    where
      after_taking :
          (o : Option W)
          → take_blocks w node is_bootstrap (blk ∷ []) s ≡ o
          → Holds IsEnabled o
          → Holds IsEnabled (
              and_then w node is_bootstrap o
                (λ s'. after_blocks w node is_bootstrap number (blk ∷ []) s'))
      after_taking none taken h = tt
      after_taking (some s1) taken h = unstaked-IsEnabled number (blk ∷ []) s1 (unstaked s1 taken) h
