-- ===== src/Tests/Workers.antt =====
-- The sequencer's work on Avail blocks, and what it asks of the staking contract.
use mathlib.Core.List.{Memᴰ}
use availproject_op_evm.Prelude.{
  ℕ, ◌+◌, ◌<◌, ◌≡◌, ◌≢◌, sym, ap, ◌↔◌, refl, Bool, true, false, Option, none, some, List, [], ◌∷◌,
  ok, ◌==◌, length, elem, if◌then◌else◌, arith,
}
use availproject_op_evm.Prelude.Bytes.{Bytes, bytes_eq, bytes_leb, bytes_eq_iff, bytes_eq_refl}
use availproject_op_evm.Prelude.Dict.{lookup, insert}
use availproject_op_evm.Prelude.Sort.{sort}
use availproject_op_evm.Chain.Types.{Transaction, Block}
use availproject_op_evm.Chain.Verify
use availproject_op_evm.Chain.Verify.{Abi}
use availproject_op_evm.Extra.{
  key_end_dispute_resolution_of, encode_extra_data_fields, decode_extra_data_fields, decode_pairs,
  field_values, target_in, extra_data_target, get_extra_data_end_dispute_resolution_target,
  get_extra_data_fraud_proof_target,
}
use availproject_op_evm.Fraud.{
  check_and_set_fraud_block, is_fraud_proof_block, Fraud, is_dispute_resolution_ended,
  end_dispute_resolution, set_chain_status,
}
use availproject_op_evm.Staking.Transactions
use availproject_op_evm.Staking.Transactions.{Contract, ContractLaws, begin_dispute_name}
use availproject_op_evm.Staking.Transactions.Recognition.{is_begin_dispute_resolution_tx_iff}
use availproject_op_evm.Staking.Participants
use availproject_op_evm.Staking.Participants.{
  Views, sequencer, begin_query, in_probation, should_stake,
}
use availproject_op_evm.Staking.Participants.Membership.{contains-sequencer}
use availproject_op_evm.Sequencer.{
  written, refused, recoverable, Filler, FillerLaws, write_transactions,
}
use availproject_op_evm.Sequencer.Round.{take_blocks, take_block, Node, Worker, handle_avail_block}
use availproject_op_evm.Sequencer.Filling.{Runs, AllOrdinary, write_transactions-runs}
use availproject_op_evm.Sequencer.Turn.Enabling.{IsTurn, handle_avail_block-IsTurn}
use availproject_op_evm.Sequencer.Turn.{Holds, handle_avail_block-seen, handle_avail_block-ended}
use availproject_op_evm.Tests.Encodings.{plain_wire, plain_crypto}
use availproject_op_evm.Tests.Production.{counting, parent, tx, node, malicious, stopped}

-- A contract with one method.
abbrev four_bytes : Bytes
four_bytes = 1 ∷ 2 ∷ 3 ∷ 4 ∷ []

abbrev contract : Contract
contract = record {
  selector = λ name. if bytes_eq name begin_dispute_name then some four_bytes else none;
  encode_inputs = λ name input. some [];
  method_by_id = λ id. if bytes_eq id four_bytes then some begin_dispute_name else none;
}

contract-laws : ContractLaws contract
contract-laws = record {
  selector-length = λ name id e. ground (arith, e);
  method_by_id-selector = λ name id e.
      ground (arith, e, bytes_eq_iff name begin_dispute_name, bytes_eq_refl four_bytes);
}

abbrev abi : Abi
abi = record { selector = four_bytes; decode_inputs = λ bs. some true }

abbrev dispute_tx : Transaction
dispute_tx = record tx { input = 1 ∷ 2 ∷ 3 ∷ 4 ∷ 9 ∷ [] }

selected : contract.selector begin_dispute_name ≡ some four_bytes
unfolding bytes_eq
selected = refl

is_begin_dispute_resolution_tx_iff_example :
    (Verify.is_begin_dispute_resolution_tx abi dispute_tx ≡ true) ↔ (
      (Transactions.is_begin_dispute_resolution_tx contract dispute_tx ≡ true)
      × (4 < 5)
      × (abi.decode_inputs (9 ∷ []) ≡ some true))
is_begin_dispute_resolution_tx_iff_example =
    is_begin_dispute_resolution_tx_iff contract contract-laws abi dispute_tx selected
      (λ id e. ground (arith, e, bytes_eq_iff id four_bytes))

-- Addresses 5, 6 and 7 are sequencers, and 6 is in probation.
abbrev pub views : Views counting
views = record {
  query_sequencers = λ t gas a. some (5 ∷ 6 ∷ 7 ∷ []);
  query_sequencers_in_probation = λ t gas a. some (6 ∷ []);
  query_watchtower = λ t gas a. none;
}

begun : begin_query plain_wire plain_crypto counting views parent 5 ≡ ok (5000, 0)
unfolding begin_query
begun = refl

contains-sequencer_example :
    (Participants.contains plain_wire plain_crypto counting views parent 6 sequencer ≡ ok false)
    × (in_probation plain_wire plain_crypto counting views parent 6 ≡ ok true)
    × (should_stake plain_wire plain_crypto counting views parent 7 sequencer ≡ ok false)
unfolding elem
contains-sequencer_example =
    contains-sequencer plain_wire plain_crypto counting views parent 5000 0 (5 ∷ 6 ∷ 7 ∷ [])
      (6 ∷ []) begun refl refl 6 7

-- A pool is a queue; a transaction without gas is refused and stays away.
abbrev first_of : List Transaction → Option (Transaction × List Transaction)
first_of [] = none
first_of (t ∷ ts) = some (t, ts)

abbrev queue : Filler
queue = record {
  Pool = List Transaction;
  prepare = λ p. p;
  peek = first_of;
  pop = λ t p. p;
  demote = λ t p. p;
  drop_tx = λ t p. p;
  Transition = ℕ;
  write = λ t n. if t.gas == 0 then refused recoverable n else written (n + 1);
}

shorter :
    (p p' : List Transaction) (t : Transaction) → first_of p ≡ some (t, p') → length p' < length p
shorter [] p' t e = cc
shorter (u ∷ us) p' t e = let same : us ≡ p' = cc e in rw same (omega arith)

abbrev queue_laws : FillerLaws queue
queue_laws = record {
  pending = λ p. length p;
  pop-pending = shorter;
  demote-pending = shorter;
  drop_tx-pending = shorter;
  write-refused = λ t n n' reason e. ground (arith, e);
}

write_transactions-runs_example :
    (txs : List Transaction) × (q : List Transaction) × (n : ℕ) × (write_transactions queue 4
        (λ k. false)
        (λ t. false)
        (tx ∷ record tx { gas = 0 } ∷ tx ∷ [])
        0
      ≡ some (txs, q, n))
    × Runs queue 0 txs n
    × AllOrdinary queue (λ t. false) txs
write_transactions-runs_example =
    write_transactions-runs queue queue_laws (λ k. false) (λ t. false) 4
      (tx ∷ record tx { gas = 0 } ∷ tx ∷ []) 0 (omega arith)

-- The world counts the blocks that were written.
abbrev counting_node : Bool → Node
counting_node is_staked = record {
  World = ℕ;
  is_known = λ v h. false;
  check = λ v b. true;
  write_block = λ b v. (true, v + 1);
  reset_with_headers = λ h v. v;
  contains_self = λ v. (some is_staked, v);
  slashing = λ v. node;
  after_slash = λ blks v. v;
  is_next_sequencer = λ v. (some true, v);
}

abbrev idle : Fraud
idle = record {
  fraud_block = none;
  last_fraud_disputed_tx = none;
  chain_process_status = 1;
  block_production_enabled = false;
}

abbrev worker : Worker plain_wire (counting_node true) false
worker = record { world = 0; fraud = idle; avail_block_num_when_staked = some 5 }

handle_avail_block-seen_example :
    Holds plain_wire
      (counting_node true)
      false
      (λ s. s.avail_block_num_when_staked ≡ some 5)
      (handle_avail_block plain_wire (counting_node true) false 9 (malicious ∷ []) worker)
handle_avail_block-seen_example =
    handle_avail_block-seen plain_wire (counting_node true) false 5 9 (malicious ∷ []) worker refl

nothing_ends :
    (blk : Block)
    → Memᴰ blk (malicious ∷ [])
    → is_dispute_resolution_ended plain_wire blk.header idle ≢ ok true
unfolding is_dispute_resolution_ended
nothing_ends blk m e = cc e

handle_avail_block-IsTurn_example :
    Holds plain_wire
      (counting_node true)
      false
      (λ s.
        s.fraud.block_production_enabled ≡ true
        → (s1 : Worker plain_wire (counting_node true) false) × (take_blocks plain_wire
              (counting_node true)
              false
              (malicious ∷ [])
              worker
            ≡ some s1)
          × IsTurn plain_wire
              (counting_node true)
              false
              9
              (check_and_set_fraud_block plain_wire (malicious ∷ []) s1.fraud).1
              s1)
      (handle_avail_block plain_wire (counting_node true) false 9 (malicious ∷ []) worker)
handle_avail_block-IsTurn_example =
    handle_avail_block-IsTurn plain_wire (counting_node true) false 9 (malicious ∷ []) worker refl
      nothing_ends

-- A node that is staked until a block is written.
abbrev leaving_node : Node
leaving_node = record (counting_node true) { contains_self = λ v. (some (v == 0), v) }

abbrev disputed : Fraud
disputed = record stopped { fraud_block = some malicious }

abbrev ending : Block
ending = record malicious {
  header = record parent {
    extra_data =
        encode_extra_data_fields plain_wire ((key_end_dispute_resolution_of, 11 ∷ []) ∷ []);
  };
}

has_ended : is_dispute_resolution_ended plain_wire ending.header disputed ≡ ok true
unfolding is_dispute_resolution_ended get_extra_data_end_dispute_resolution_target extra_data_target
    target_in decode_extra_data_fields decode_pairs encode_extra_data_fields field_values lookup
    insert sort bytes_eq bytes_leb
has_ended = refl

abbrev unstaked_worker : Worker plain_wire leaving_node false
unstaked_worker = record { world = 0; fraud = disputed; avail_block_num_when_staked = none }

has_left :
    (s1 : Worker plain_wire leaving_node false)
    → take_blocks plain_wire leaving_node false (ending ∷ []) unstaked_worker ≡ some s1
    → (leaving_node.contains_self s1.world).0 ≡ some false
unfolding take_blocks take_block is_dispute_resolution_ended is_fraud_proof_block
    get_extra_data_end_dispute_resolution_target get_extra_data_fraud_proof_target extra_data_target
    target_in decode_extra_data_fields decode_pairs encode_extra_data_fields field_values lookup
    insert sort bytes_eq bytes_leb end_dispute_resolution set_chain_status
has_left s1 taken =
    ap (λ o. elim o [ none ↦ some false | some s ↦ (leaving_node.contains_self s.world).0 ])
      (sym taken)

handle_avail_block-ended_example :
    Holds plain_wire leaving_node false
      (λ s. s.fraud.block_production_enabled ≡ true)
      (handle_avail_block plain_wire leaving_node false 13 (ending ∷ []) unstaked_worker)
handle_avail_block-ended_example =
    handle_avail_block-ended plain_wire leaving_node false 13 ending unstaked_worker has_ended
      has_left
