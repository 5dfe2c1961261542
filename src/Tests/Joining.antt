-- ===== src/Tests/Joining.antt =====
-- A node that joins: what it writes while it syncs, its funds and its stake.
use availproject_op_evm.Prelude.{
  ℕ, ◌≡◌, ◌≢◌, ◌≤◌, ◌↔◌, refl, inr, Bool, true, false, none, some, List, [], ◌∷◌, ◌++◌, ok, elem,
  arith,
}
use availproject_op_evm.Prelude.Bytes.{Bytes}
use availproject_op_evm.Chain.Types.{Transaction, Block}
use availproject_op_evm.Node.Sync.{Local, Arrival, avail_block, returned, sync_node}
use availproject_op_evm.Node.Sync.UpToDate.{OnlyBad, sync_node-never}
use availproject_op_evm.Node.Funds.{Bank, known, Funded, sync_condition, min_balance}
use availproject_op_evm.Node.Funds.TopUp.{sync_condition_iff}
use availproject_op_evm.Staking.Participants.{
  begin_query, query_active_sequencers, without_probation, contains, in_probation, get,
}
use availproject_op_evm.Staking.Transactions.{Contract, addr_staking_contract, call_tx, stake_tx}
use availproject_op_evm.Node.Kind.{sequencer, kind_name}
use availproject_op_evm.Node.Staking.{signed_stake, is_staked, ensure_staked}
use availproject_op_evm.Node.Staking.Retries.{ensure_staked-pool}
use availproject_op_evm.Watchtower.Patrol
use availproject_op_evm.Watchtower.Patrol.{faulty, patrol_block}
use availproject_op_evm.Watchtower.Patrol.InOrder
use availproject_op_evm.Watchtower.Patrol.Unaccused.{
  apply_and_check, construct_fraudproof-unaccused,
}
use availproject_op_evm.Tests.Encodings.{plain_wire, plain_wire-laws, plain_crypto}
use availproject_op_evm.Tests.Extraction.{
  numbered, codec, submit, extrinsic_of, foreign_one, broken, avail_of, has_bad,
}
use availproject_op_evm.Tests.Production.{
  contract, counting, counting-laws, pool_of_hashes, tower, malicious, accusation, accusing, parent,
  signer, outside,
}
use availproject_op_evm.Tests.Workers.{views}

-- The chain is the list of the blocks that were written.
abbrev local : Local
local = record {
  World = List Block;
  check = λ b v. some (true, v);
  write_block = λ b v. some (true, v ++ (b ∷ []));
  unstake = λ v. (true, v);
}

abbrev stream : List Arrival
stream =
    avail_block (avail_of 6 [])
    ∷ avail_block (avail_of 7 (foreign_one ∷ extrinsic_of (numbered 3) ∷ []))
    ∷ []

abbrev spoiled : List Arrival
spoiled = avail_block (avail_of 8 (extrinsic_of (numbered 3) ∷ broken ∷ [])) ∷ []

spoiled-OnlyBad : OnlyBad plain_wire local codec 5 submit 8 spoiled
spoiled-OnlyBad = (inr has_bad, tt)

sync_node-never_example : sync_node plain_wire local codec 5 submit 8 1 spoiled [] ≢ returned 8 []
sync_node-never_example =
    sync_node-never plain_wire local codec 5 submit 8 1 8 spoiled [] [] spoiled-OnlyBad

abbrev bank : Bank
bank = record {
  World = ℕ;
  Key = Bytes;
  parse_key = λ bs. some bs;
  balance = λ v. known v;
  latest = λ v. some 9;
  transfer = λ k t v. (true, v);
}

abbrev funded : Funded bank []
funded = record { world = min_balance; balance_once = false }

-- A contract with the method that stakes.
abbrev staking_contract : Contract
staking_contract = record {
  selector = λ name. some (1 ∷ 2 ∷ 3 ∷ 4 ∷ []);
  encode_inputs = λ name input. some [];
  method_by_id = λ id. none;
}

-- Its input is that method's identifier.
abbrev own_stake : Transaction
own_stake = record {
  hash = 60;
  from = 8;
  to = some addr_staking_contract;
  nonce = 0;
  gas = 1000000;
  gas_price = 5000;
  is_state_tx = false;
  input = 1 ∷ 2 ∷ 3 ∷ 4 ∷ [];
}

unstaked :
    is_staked plain_wire plain_crypto counting staking_contract signer outside views sequencer
      parent 8
    ≡ ok false
unfolding is_staked elem begin_query query_active_sequencers without_probation contains in_probation
    get
unstaked = refl

signed_own :
    signed_stake plain_wire plain_crypto counting staking_contract signer 8 5 (kind_name sequencer)
    ≡ ok own_stake
unfolding signed_stake stake_tx call_tx
signed_own = refl

abbrev refusing : Transaction → List Block → Bool × List Block
refusing t v = (false, v)

ensure_staked-pool_example :
    let after =
      ensure_staked plain_wire plain_crypto counting staking_contract signer outside views refusing
        sequencer parent 8 5 [] in
    (after.0 ≡ ok tt)
    × ((u : List Block) → refusing own_stake [] ≡ (true, u) → after.1 ≡ u)
    × (((u : List Block) → refusing own_stake u ≡ (false, u)) → after.1 ≡ [])
ensure_staked-pool_example =
    ensure_staked-pool plain_wire plain_crypto counting staking_contract signer outside views
      refusing sequencer parent 8 5 own_stake [] tt unstaked signed_own

sync_condition_iff_example :
    (((s : Funded bank []) × (sync_condition bank [] 9 funded ≡ some (true, s)))
      ↔ ((bank.latest min_balance ≡ some 9) × (min_balance ≤ min_balance)))
    × ((s : Funded bank []) → sync_condition bank [] 9 funded ≡ some (true, s) → s ≡ funded)
sync_condition_iff_example = sync_condition_iff bank [] 9 funded

-- A watchtower whose check refuses everything and that keeps what it applies, and what it sends with
-- the number 100.
abbrev watcher : Patrol.Local
watcher = record {
  World = List Block;
  apply = λ b v. some (true, v ++ (b ∷ []));
  is_staked = λ v. some true;
  check = λ b v. some (faulty, v);
  construct = λ b v. (ok (numbered 100), v);
  send = λ b v. (true, v ++ (b ∷ []));
  unstake = λ v. (true, v);
}

abbrev patrolled : List Patrol.Arrival
patrolled =
    Patrol.avail_block (avail_of 6 (extrinsic_of (numbered 3) ∷ broken ∷ []))
    ∷ Patrol.avail_block (avail_of 7 (foreign_one ∷ extrinsic_of (numbered 3) ∷ []))
    ∷ []

construct_fraudproof-unaccused_example :
    patrol_block plain_wire watcher accusation [] ≡ apply_and_check watcher accusation []
construct_fraudproof-unaccused_example =
    construct_fraudproof-unaccused plain_wire plain_wire-laws plain_crypto counting counting-laws
      contract pool_of_hashes tower malicious accusation (some []) (some (60 ∷ [])) accusing
      (λ e. ground (arith, e)) watcher []
