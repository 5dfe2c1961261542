-- ===== src/Sequencer/Turn/Enabling.antt =====
-- What it takes for a sequencer to be enabled to produce blocks.
use mathlib.Core.List.{Memᴰ}
use availproject_op_evm.Prelude.{
  ℕ, ◌/◌, ◌%◌, ◌<◌, ◌≡◌, ◌≢◌, ◌⊎◌, inl, inr, refl, sym, ap, ◌∙◌, Bool, true, false, not, ◌&&◌, ◌||◌,
  Option, none, some, List, [], ◌∷◌, Outcome, ok, err, panic, ◌==◌, arith, if◌then◌else◌,
  Bool-cases,
}
use availproject_op_evm.Chain.Types.{Block}
use availproject_op_evm.Extra.Encoding.{Wire}
use availproject_op_evm.Fraud
use availproject_op_evm.Fraud.{
  is_fraud_proof_block, Fraud, is_ready_to_slash, is_dispute_resolution_ended,
  end_dispute_resolution, check_and_set_fraud_block, check_and_slash, judge, slash_node,
}
use availproject_op_evm.Sequencer.Round.{
  Node, Worker, avail_block_window_len, first_seen, written_to, unless_known, ended_by, take_block,
  and_then, take_blocks, turn_by, take_turn, slashed_by, slash_and_turn, staked, seen_by, ask_stake,
  searched_by, after_blocks, handle_avail_block,
}
use availproject_op_evm.Sequencer.Turn.{
  Holds, and_then-Holds, if-Holds, check_and_set_fraud_block-enabled,
}

-- Where `CheckAndSlash` returns an error, it has left the dispute as it was.
check_and_slash-err :
    (w : Wire) (sv : Fraud.Services) (f f' : Fraud) (e : Fraud.Error)
    → check_and_slash w sv f ≡ (err e, f')
    → f' ≡ f
unfolding check_and_slash judge slash_node
check_and_slash-err w sv f f' e failed = ground arith

module _ (w : Wire) (node : Node) (is_bootstrap : Bool) where
  abbrev W : Type 0
  W = Worker w node is_bootstrap

  abbrev H : (W → Type 0) → Option W → Type 0
  H = Holds w node is_bootstrap

  -- A worker with the dispute and the first sight of its stake of another one.
  abbrev IsLike : W → W → Type 0
  IsLike s s' =
      (s'.fraud ≡ s.fraud) × (s'.avail_block_num_when_staked ≡ s.avail_block_num_when_staked)

  unless_known-IsLike :
      (s s1 : W) (blk : Block) (r : Outcome Fraud.Error Bool)
      → IsLike s s1
      → H (IsLike s) (unless_known w node is_bootstrap blk s1 r)
  unless_known-IsLike s s1 blk (ok is_proof) like =
      if-Holds w node is_bootstrap (IsLike s)
        (not (node.is_known s1.world blk.header.hash) || not is_proof)
        (some (written_to w node is_bootstrap blk s1)) (some s1) like like
  unless_known-IsLike s s1 blk (err e) like = tt
  unless_known-IsLike s s1 blk panic like =
      if-Holds w node is_bootstrap (IsLike s) (node.is_known s1.world blk.header.hash) none
        (some (written_to w node is_bootstrap blk s1)) tt like

  ended_by-IsLike :
      (s s1 : W) (blk : Block) (r : Outcome Fraud.Error Bool)
      → r ≢ ok true
      → IsLike s s1
      → H (IsLike s) (ended_by w node is_bootstrap blk s1 r)
  ended_by-IsLike s s1 blk (ok true) going like = absurd (going refl)
  ended_by-IsLike s s1 blk (ok false) going like =
      unless_known-IsLike s s1 blk (is_fraud_proof_block w blk) like
  ended_by-IsLike s s1 blk (err e) going like = tt
  ended_by-IsLike s s1 blk panic going like = tt

  take_blocks-IsLike :
      (blks : List Block) (s s1 : W)
      → ((blk : Block) → Memᴰ blk blks → is_dispute_resolution_ended w blk.header s.fraud ≢ ok true)
      → IsLike s s1
      → H (IsLike s) (take_blocks w node is_bootstrap blks s1)
  unfolding take_blocks take_block
  take_blocks-IsLike [] s s1 going like = like
  take_blocks-IsLike (blk ∷ blks) s s1 going like =
      and_then-Holds w node is_bootstrap (IsLike s) (IsLike s) _ _
        (ended_by-IsLike s s1 blk (is_dispute_resolution_ended w blk.header s1.fraud)
          (λ e.
            going blk (Memᴰ.head refl)
              (ap (λ f. is_dispute_resolution_ended w blk.header f) (sym like.0) ∙ e))
          like)
        (λ s2 like2. take_blocks-IsLike blks s s2 (λ b m. going b (Memᴰ.tail m)) like2)

  -- The node was told that it is staked, past the window in which it first saw that; and, after what
  -- `CheckAndSlash` produced from its dispute, that it is the next sequencer; and the Avail block is not
  -- the last one of its window.
  pub record IsTurn (number : ℕ) (f : Fraud) (s : W) : Type 0 where
    pub asked : node.World
    pub produced : List Block
    pub settled : Fraud
    pub stake : node.contains_self s.world ≡ (some true, asked)
    pub past :
        (is_bootstrap ≡ true)
        ⊎ (first_seen w node is_bootstrap number s.avail_block_num_when_staked
              / avail_block_window_len
            ≢ number / avail_block_window_len)
    pub slashed : check_and_slash w (node.slashing asked) f ≡ (ok produced, settled)
    pub next : (node.is_next_sequencer (node.after_slash produced asked)).0 ≡ some true
    pub early : number % avail_block_window_len < 6

  module _ (number : ℕ) (g : Fraud) (s1 : W) where
    abbrev Needs : W → Type 0
    Needs s' = s'.fraud.block_production_enabled ≡ true → IsTurn number g s1

    off-Needs : (s' : W) → s'.fraud.block_production_enabled ≡ false → Needs s'
    off-Needs s' off on = absurd (cc (sym off ∙ on))

    module _ (v : node.World) (stake : node.contains_self s1.world ≡ (some true, v))
        (past : (is_bootstrap ≡ true)
          ⊎ (first_seen w node is_bootstrap number s1.avail_block_num_when_staked
                / avail_block_window_len
              ≢ number / avail_block_window_len)) where
      turn_by-Needs :
          (s : W) (blks : List Block) (f : Fraud) (r : Option Bool × node.World)
          → check_and_slash w (node.slashing v) g ≡ (ok blks, f)
          → node.is_next_sequencer (node.after_slash blks v) ≡ r
          → H Needs (turn_by w node is_bootstrap number s r)
      turn_by-Needs s blks f (none, u) slashed told = tt
      turn_by-Needs s blks f (some false, u) slashed told = λ on. absurd (cc on)
      turn_by-Needs s blks f (some true, u) slashed told = λ on. record {
        asked = v;
        produced = blks;
        settled = f;
        stake = stake;
        past = past;
        slashed = slashed;
        next = ap (λ r. r.0) told;
        early = ground (arith, on);
      }

      slashed_by-Needs :
          (s : W) (r : Outcome Fraud.Error (List Block) × Fraud)
          → check_and_slash w (node.slashing v) g ≡ r
          → s.world ≡ v
          → s.fraud.block_production_enabled ≡ false
          → ((e : Fraud.Error) → r.0 ≡ err e → r.1 ≡ s.fraud)
          → H Needs (slashed_by w node is_bootstrap number s r)
      unfolding take_turn
      slashed_by-Needs s (ok blks, f) slashed here off fails =
          turn_by-Needs (record s { world = node.after_slash blks s.world; fraud = f }) blks f
            (node.is_next_sequencer (node.after_slash blks s.world)) slashed
            (ap (λ u. node.is_next_sequencer (node.after_slash blks u)) (sym here))
      slashed_by-Needs s (err e, f) slashed here off fails =
          off-Needs (record s { fraud = f })
            (ap (λ (g : Fraud). g.block_production_enabled) (fails e refl) ∙ off)
      slashed_by-Needs s (panic, f) slashed here off fails = tt

    past_window :
        (not is_bootstrap
            && (first_seen w node is_bootstrap number s1.avail_block_num_when_staked
                  / avail_block_window_len
                == number / avail_block_window_len))
          ≡ false
        → (is_bootstrap ≡ true)
          ⊎ (first_seen w node is_bootstrap number s1.avail_block_num_when_staked
                / avail_block_window_len
              ≢ number / avail_block_window_len)
    past_window test = elim (Bool-cases is_bootstrap) [
      | inl boot ↦ inl boot
      | inr not_boot ↦ inr (λ same. ground (arith, test, not_boot, same))
    ]

    if-Needs :
        (b : Bool) (x y : Option W)
        → H Needs x
        → (b ≡ false → H Needs y)
        → H Needs (if b then x else y)
    if-Needs true x y held next = held
    if-Needs false x y held next = next refl

    staked-Needs :
        (v : node.World)
        → node.contains_self s1.world ≡ (some true, v)
        → g.block_production_enabled ≡ false
        → H Needs (staked w node is_bootstrap number (record s1 { fraud = g; world = v }))
    unfolding staked slash_and_turn
    staked-Needs v stake off =
        let first = first_seen w node is_bootstrap number s1.avail_block_num_when_staked in
        let seen : W = record s1 {
          fraud = g;
          world = v;
          avail_block_num_when_staked = some first;
        } in
        let slashed = check_and_slash w (node.slashing v) g in
        if-Needs
          (not is_bootstrap && (first / avail_block_window_len == number / avail_block_window_len))
          (some seen) (slashed_by w node is_bootstrap number seen slashed) (off-Needs seen off)
          (λ test.
            slashed_by-Needs v stake (past_window test) seen slashed refl refl off (λ e failed.
              check_and_slash-err w (node.slashing v) g slashed.1 e
                (ap (λ r. (r, slashed.1)) failed)))

    seen_by-Needs :
        (r : Option Bool × node.World)
        → node.contains_self s1.world ≡ r
        → g.block_production_enabled ≡ false
        → H Needs (seen_by w node is_bootstrap number (record s1 { fraud = g }) r)
    seen_by-Needs (none, v) asked off = off-Needs (record s1 { fraud = g; world = v }) off
    seen_by-Needs (some false, v) asked off = off-Needs (record s1 { fraud = g; world = v }) off
    seen_by-Needs (some true, v) asked off = staked-Needs v asked off

    searched_by-Needs :
        (r : Outcome Fraud.Error Bool)
        → g.block_production_enabled ≡ false
        → H Needs (searched_by w node is_bootstrap number s1 (r, g))
    unfolding ask_stake
    searched_by-Needs (ok found) off = seen_by-Needs (node.contains_self s1.world) refl off
    searched_by-Needs (err e) off = tt
    searched_by-Needs panic off = tt

  -- If block production is off when an Avail block comes, and none of its blocks ends the dispute that
  -- the node holds, then production is on after the handling only if, once the blocks were taken, the
  -- node was told that it is staked and, after what slashing produced, that it is the next sequencer;
  -- if it is the bootstrap sequencer or past the window in which it first saw its stake; and if the
  -- Avail block is not the last one of its window of seven. The node may also panic.
  pub handle_avail_block-IsTurn :
      (number : ℕ) (blks : List Block) (s : W)
      → s.fraud.block_production_enabled ≡ false
      → ((blk : Block) → Memᴰ blk blks → is_dispute_resolution_ended w blk.header s.fraud ≢ ok true)
      → Holds w node is_bootstrap
          (λ s'.
            s'.fraud.block_production_enabled ≡ true
            → (s1 : W) × (take_blocks w node is_bootstrap blks s ≡ some s1)
              × IsTurn number (check_and_set_fraud_block w blks s1.fraud).1 s1)
          (handle_avail_block w node is_bootstrap number blks s)
  unfolding handle_avail_block after_blocks
  handle_avail_block-IsTurn number blks s off going =
      after_taking (take_blocks w node is_bootstrap blks s) refl
        (take_blocks-IsLike blks s s going (refl, refl))
    where
      weaken :
          (s1 : W) (o : Option W)
          → take_blocks w node is_bootstrap blks s ≡ some s1
          → H (Needs number (check_and_set_fraud_block w blks s1.fraud).1 s1) o
          → H
              (λ s'.
                s'.fraud.block_production_enabled ≡ true
                → (t : W) × (take_blocks w node is_bootstrap blks s ≡ some t)
                  × IsTurn number (check_and_set_fraud_block w blks t.fraud).1 t)
              o
      weaken s1 none taken h = tt
      weaken s1 (some s') taken h = λ on. (s1, taken, h on)

      after_taking :
          (o : Option W)
          → take_blocks w node is_bootstrap blks s ≡ o
          → H (IsLike s) o
          → H
              (λ s'.
                s'.fraud.block_production_enabled ≡ true
                → (t : W) × (take_blocks w node is_bootstrap blks s ≡ some t)
                  × IsTurn number (check_and_set_fraud_block w blks t.fraud).1 t)
              (and_then w node is_bootstrap o
                (λ s'. after_blocks w node is_bootstrap number blks s'))
      after_taking none taken like = tt
      after_taking (some s1) taken like =
          weaken s1 (after_blocks w node is_bootstrap number blks s1) taken (
            searched_by-Needs number (check_and_set_fraud_block w blks s1.fraud).1 s1
              (check_and_set_fraud_block w blks s1.fraud).0
              (check_and_set_fraud_block-enabled w node is_bootstrap blks s1.fraud
                ∙ ap (λ (f : Fraud). f.block_production_enabled) like.0
                ∙ off))
