-- ===== src/Tests/Production.antt =====
-- Blocks that are built, accuse and slash.
use availproject_op_evm.Prelude.{
  ℕ, ◌+◌, ◌≡◌, ◌↔◌, refl, false, true, Option, none, some, List, [], ◌∷◌, Outcome, ok, err, panic,
  ◌==◌, if◌then◌else◌, arith,
}
use availproject_op_evm.Prelude.Bytes.{bytes_eq, bytes_leb}
use availproject_op_evm.Prelude.Sort.{sort}
use availproject_op_evm.Prelude.Dict.{lookup, insert}
use availproject_op_evm.Chain.Types.{Hash, Header, Transaction, Block}
use availproject_op_evm.Chain.Gas.{verify_gas_limit}
use availproject_op_evm.Chain.Verify.{verify_block_parent, validator_verify_block_parent}
use availproject_op_evm.Extra.{
  encode_extra_data_fields, decode_extra_data_fields, put_validator_extra, get_validator_extra,
  decode_pairs, unmarshal_rlp, unmarshal_elems, all_of, marshal_rlp_with, empty_seals, full_seals,
  field_values, assign_extra_validators,
}
use availproject_op_evm.Seal.{calculate_header_hash, header_value, sign_seal_impl, write_seal}
use availproject_op_evm.Build.{
  Executor, ExecutorLaws, Builder, from_parent_header, from_parent_hash, set_coinbase_address,
  set_gas_limit, set_extra_data_field, add_transactions, sign_with, gas_limit_of, write_all,
  seal_block, build, coinbase_of,
}
use availproject_op_evm.Build.Sealed.{build-verify_header}
use availproject_op_evm.Build.OnParent.{build-verify_block_parent}
use availproject_op_evm.Validator.{verify_header}
use availproject_op_evm.Fraud.{
  Fraud, Services, set_block, check_and_set_fraud_block, check_and_slash, judge,
  is_dispute_resolution_ended,
}
use availproject_op_evm.Staking.Transactions.{
  Contract, call_tx, begin_dispute_resolution_tx, slash_staker_tx,
}
use availproject_op_evm.Watchtower
use availproject_op_evm.Watchtower.{
  Tower, construct_fraudproof_txs, prepare_fraudproof, accuse, construct_fraudproof,
}
use availproject_op_evm.Watchtower.Accusation.{without_body, construct_fraudproof-judged}
use availproject_op_evm.Resolution
use availproject_op_evm.Resolution.{Outside, ship, slash_block, produce_slash_block}
use availproject_op_evm.Resolution.Ending.{produce_slash_block-ends}
use availproject_op_evm.Sequencer.{written, fill, write_transactions}
use availproject_op_evm.Sequencer.Mining
use availproject_op_evm.Sequencer.Mining.{TxPool, mining_header, finish_block, mine}
use availproject_op_evm.Sequencer.Mining.Signed.{mine-verify_header}
use availproject_op_evm.Tests.Encodings.{
  plain_wire, plain_wire-laws, plain_crypto, plain_crypto-laws,
}

abbrev pub parent : Header
parent = record {
  hash = 10;
  parent_hash = 9;
  sha3_uncles = 0;
  miner = 5 ∷ [];
  state_root = 3;
  tx_root = 4;
  receipts_root = 6;
  logs_bloom = [];
  difficulty = 1;
  number = 7;
  gas_limit = 5000;
  gas_used = 21;
  timestamp = 100;
  base_fee = 0;
  extra_data = [];
}

-- A state is the number of transactions that were run on it.
abbrev pub counting : Executor
counting = record {
  Transition = ℕ;
  Receipt = ℕ;
  begin_txn = λ root h coinbase. some 0;
  get_nonce = λ t a. 4;
  write = λ tx t. some (t + 1);
  commit = λ t. 30 + t;
  total_gas = λ t. t;
  receipts = λ t. [];
  build_block = λ h txs rs. record {
    header = record h { hash = 1; tx_root = 2 };
    transactions = txs;
    uncles = [];
  };
  header_hash = λ h. 50 + h.number;
  get_header_by_hash = λ h. if h == 10 then some parent else none;
  calculate_gas_limit = λ n. some 5000;
  now = 200;
}

pub counting-laws : ExecutorLaws counting
counting-laws = record {
  build_block-transactions = λ h txs rs. refl;
  build_block-header = λ h txs rs. refl;
}

abbrev pub tx : Transaction
tx = record {
  hash = 21;
  from = 6;
  to = some 8;
  nonce = 0;
  gas = 100;
  gas_price = 1;
  is_state_tx = false;
  input = [];
}

abbrev no_block : Block
no_block = record { header = parent; transactions = []; uncles = [] }

abbrev builder : Builder plain_wire plain_crypto counting
unfolding add_transactions sign_with from_parent_header
builder = add_transactions plain_wire plain_crypto counting (tx ∷ []) (
    sign_with plain_wire plain_crypto counting 5
      (from_parent_header plain_wire plain_crypto counting parent))

abbrev block_in : {E : Type 0} → Outcome E Block → Block
block_in (ok b) = b
block_in (err e) = no_block
block_in panic = no_block

abbrev built : Block
built = block_in (build plain_wire plain_crypto counting builder)

building : build plain_wire plain_crypto counting builder ≡ ok built
unfolding build gas_limit_of write_all seal_block get_validator_extra decode_extra_data_fields
    decode_pairs unmarshal_rlp unmarshal_elems all_of marshal_rlp_with empty_seals full_seals
    encode_extra_data_fields field_values lookup insert sort bytes_eq bytes_leb write_seal
    sign_seal_impl calculate_header_hash header_value assign_extra_validators put_validator_extra
    builder add_transactions sign_with from_parent_header
building = refl

build-verify_header_example :
    (verify_header plain_wire plain_crypto built.header ≡ ok tt)
    ↔ (plain_crypto.address_of 5 ≡ coinbase_of plain_wire plain_crypto counting builder)
unfolding builder add_transactions sign_with from_parent_header
build-verify_header_example =
    build-verify_header plain_wire plain_crypto counting plain_wire-laws plain_crypto-laws
      counting-laws builder 5 built refl building

abbrev known : Hash → Option Header
known h = if h == 10 then some parent else none

build-verify_block_parent_example :
    (verify_block_parent known (λ t. false) built ≡ verify_gas_limit built.header parent)
    × (validator_verify_block_parent known (λ t. ok false) built
        ≡ verify_gas_limit built.header parent)
unfolding builder add_transactions sign_with from_parent_header
build-verify_block_parent_example =
    build-verify_block_parent plain_wire plain_crypto counting counting-laws builder built parent
      refl building known (λ t. false) (λ t. ok false) refl (λ e. ground (arith, e)) (omega arith)

abbrev pub contract : Contract
contract = record {
  selector = λ name. some (1 ∷ 2 ∷ 3 ∷ 4 ∷ []);
  encode_inputs = λ name input. some [];
  method_by_id = λ id. none;
}

-- Signing gives a transaction its hash; every transaction is taken.
abbrev pub signer : ℕ → Transaction → Option Transaction
signer key t = some (record t { hash = 60 })

abbrev pub pool_of_hashes : Watchtower.Services plain_crypto
pool_of_hashes = record { Pool = List ℕ; sign_tx = signer; add_tx = λ t p. some (t.hash ∷ p) }

abbrev pub tower : Tower plain_wire plain_crypto counting contract pool_of_hashes
tower = record { account = 6; sign_key = 6 }

abbrev pub malicious : Block
malicious = record {
  header = record parent { hash = 11; parent_hash = 10; number = 8; miner = 7 ∷ [] };
  transactions = tx ∷ [];
  uncles = [];
}

abbrev pub accusation : Block
accusation =
    block_in
      (construct_fraudproof plain_wire plain_crypto counting contract pool_of_hashes tower malicious
        (some [])).0

pub accusing :
    construct_fraudproof plain_wire plain_crypto counting contract pool_of_hashes tower malicious
      (some [])
    ≡ (ok accusation, some (60 ∷ []))
unfolding construct_fraudproof prepare_fraudproof construct_fraudproof_txs accuse call_tx
    begin_dispute_resolution_tx from_parent_hash set_coinbase_address set_gas_limit
    set_extra_data_field build gas_limit_of write_all seal_block get_validator_extra
    decode_extra_data_fields decode_pairs unmarshal_rlp unmarshal_elems all_of marshal_rlp_with
    empty_seals full_seals encode_extra_data_fields field_values lookup insert sort bytes_eq
    bytes_leb write_seal sign_seal_impl calculate_header_hash header_value assign_extra_validators
    put_validator_extra add_transactions sign_with from_parent_header
accusing = refl

abbrev pub node : Services
node = record {
  node_addr = 4;
  to_address = plain_wire.bytes_to_address;
  get_block_by_hash =
      λ h full. if h == 11 then some (if full then malicious else without_body malicious) else none;
  check = λ b. false;
  produce_begin_dispute_resolution_block = λ addr h kind. none;
  produce_slash_block = λ proof dispute addr h kind. none;
}

abbrev pub stopped : Fraud
stopped = record {
  fraud_block = none;
  last_fraud_disputed_tx = some 60;
  chain_process_status = 0;
  block_production_enabled = false;
}

construct_fraudproof-judged_example :
    check_and_slash plain_wire node
      (check_and_set_fraud_block plain_wire (accusation ∷ no_block ∷ []) stopped).1
    ≡ judge node accusation (without_body malicious) (set_block (some accusation) stopped)
construct_fraudproof-judged_example =
    construct_fraudproof-judged plain_wire plain_crypto counting contract pool_of_hashes
      plain_wire-laws counting-laws tower malicious accusation (some []) (some (60 ∷ [])) accusing
      (λ e. ground (arith, e)) node stopped (no_block ∷ []) refl refl

abbrev pub outside : Outside
outside = record {
  World = List Block;
  send = λ b v. (true, v);
  write_block = λ b v. (true, b ∷ v);
  reset_with_headers = λ h v. v;
}

abbrev slashing : Outcome Resolution.Error Block × List Block
slashing =
    produce_slash_block plain_wire plain_crypto counting contract signer outside parent 5 5
      accusation 7 []

slashed :
    produce_slash_block plain_wire plain_crypto counting contract signer outside parent 5 5
      accusation 7 []
    ≡ (ok (block_in slashing.0), slashing.1)
unfolding produce_slash_block slash_block ship call_tx slash_staker_tx set_coinbase_address
    set_extra_data_field build gas_limit_of write_all seal_block get_validator_extra
    decode_extra_data_fields decode_pairs unmarshal_rlp unmarshal_elems all_of marshal_rlp_with
    empty_seals full_seals encode_extra_data_fields field_values lookup insert sort bytes_eq
    bytes_leb write_seal sign_seal_impl calculate_header_hash header_value assign_extra_validators
    put_validator_extra add_transactions sign_with from_parent_header
slashed = refl

produce_slash_block-ends_example :
    is_dispute_resolution_ended plain_wire
      (block_in slashing.0).header
      (set_block (some accusation) stopped)
    ≡ ok true
produce_slash_block-ends_example =
    produce_slash_block-ends plain_wire plain_wire-laws plain_crypto counting counting-laws contract
      signer outside parent 5 5 accusation 7 [] slashing.1 (block_in slashing.0) slashed
      (set_block (some accusation) stopped) accusation refl refl

abbrev queue_of : List Transaction → Option (Transaction × List Transaction)
queue_of [] = none
queue_of (t ∷ ts) = some (t, ts)

abbrev tx_queue : TxPool counting
tx_queue = record {
  Pool = List Transaction;
  prepare = λ p. p;
  peek = queue_of;
  pop = λ t p. p;
  demote = λ t p. p;
  drop_tx = λ t p. p;
  write = λ t n. written (n + 1);
}

abbrev mining : Outcome Mining.Error (Block × List Transaction)
mining =
    mine counting tx_queue plain_wire plain_crypto 3 (λ k. false) (λ t. false) (λ ts. ts) parent 5 5
      20 (tx ∷ [])

abbrev mined_in : Outcome Mining.Error (Block × List Transaction) → Block
mined_in (ok (b, p)) = b
mined_in (err e) = no_block
mined_in panic = no_block

mined :
    mine counting tx_queue plain_wire plain_crypto 3
      (λ k. false)
      (λ t. false)
      (λ ts. ts)
      parent
      5
      5
      20
      (tx ∷ [])
    ≡ ok (mined_in mining, [])
unfolding mine mining_header finish_block write_transactions fill get_validator_extra
    decode_extra_data_fields decode_pairs unmarshal_rlp unmarshal_elems all_of marshal_rlp_with
    empty_seals full_seals encode_extra_data_fields field_values lookup insert sort bytes_eq
    bytes_leb write_seal sign_seal_impl calculate_header_hash header_value assign_extra_validators
    put_validator_extra
mined = refl

mine-verify_header_example :
    (verify_header plain_wire plain_crypto (mined_in mining).header ≡ ok tt)
    ↔ (plain_crypto.address_of 5 ≡ 5)
mine-verify_header_example =
    mine-verify_header plain_wire plain_wire-laws plain_crypto plain_crypto-laws counting
      counting-laws tx_queue 3 (λ k. false) (λ t. false) (λ ts. ts) parent 5 5 20 (tx ∷ []) []
      (mined_in mining) mined
