-- ===== src/Tests/Nodes.antt =====
-- The sequencers, the state storage and disputes.
use mathlib.Core.List.{Memᴰ, Perm}
use mathlib.Core.List.Perm
use availproject_op_evm.Prelude.{
  ℕ, ◌+◌, Outcome, ◌≡◌, refl, ap, Bool, true, false, Option, some, none, List, [], ◌∷◌, ok, ◌==◌,
  if◌then◌else◌,
}
use availproject_op_evm.Prelude.Bytes.{Bytes, bytes_eq, bytes_leb}
use availproject_op_evm.Prelude.Sort.{sort}
use availproject_op_evm.Prelude.Dict.{Dict, lookup, insert}
use availproject_op_evm.Chain.Types
use availproject_op_evm.Chain.Types.{Address, Header, Transaction, Block}
use availproject_op_evm.Staking.Sequencers.{Shuffle, randomized_get, Cache}
use availproject_op_evm.Staking.Sequencers.Agreement.{randomized_get-agrees}
use availproject_op_evm.Snapshot.{Storage, StateStorage, put_state}
use availproject_op_evm.Snapshot.Kv.{Kv, KvStorage, memory_kv}
use availproject_op_evm.Snapshot.Both.{Snapshot, Snapshotter, begin_both}
use availproject_op_evm.Sequencer.Distribution.{Peer}
use availproject_op_evm.Snapshot.Both.Sent.{Write, to_chain, to_state}
use availproject_op_evm.Extra.{
  key_fraud_proof_of, encode_extra_data_fields, decode_extra_data_fields, decode_pairs,
  field_values, target_in, extra_data_target, get_extra_data_fraud_proof_target,
}
use availproject_op_evm.Fraud.{
  Fraud, Services, set_chain_status, is_ready_to_slash, end_dispute_resolution, consider_tx,
  watch_pool, slash_node, judge, check_and_slash,
}
use availproject_op_evm.Fraud.Dispute.{
  Peek, Reachable, start, step, peek, IsTraced, Reachable-IsTraced, check_and_slash-once,
  watch_pool-stops,
}
use availproject_op_evm.Tests.Encodings.{plain_wire}

abbrev in_order : Shuffle
in_order = λ seed xs. xs

in_order-Perm : (xs : List Address) → Perm (in_order 4 xs) xs
in_order-Perm xs = Perm.refl xs

randomized_get-agrees_example :
    (order : List Address) × (randomized_get in_order 4 (ok (2 ∷ 1 ∷ [])) ≡ ok order)
    × (randomized_get in_order 4 (ok (1 ∷ 2 ∷ [])) ≡ ok order)
    × Perm order (2 ∷ 1 ∷ [])
randomized_get-agrees_example =
    randomized_get-agrees in_order 4 (2 ∷ 1 ∷ []) (1 ∷ 2 ∷ []) in_order-Perm (Perm.swap _ _ _)

abbrev old_cache : Cache
old_cache = record { last_seed = 3; last_sequencers = some (8 ∷ []) }

abbrev dict_store : Storage
dict_store = record { Store = Dict Bytes; put = insert; get = λ st k. lookup k st }

abbrev as_is : Dict Bytes → List (Bytes × Bytes)
as_is m = m

abbrev quiet : StateStorage dict_store
quiet = record { underlying = (1 ∷ [], 2 ∷ []) ∷ []; changes = none }

abbrev two_writes : List (Bytes × Bytes)
two_writes = (1 ∷ [], 5 ∷ []) ∷ (3 ∷ [], 6 ∷ []) ∷ []

abbrev pool_tx : Transaction
pool_tx = record {
  hash = 21;
  from = 4;
  to = some 1;
  nonce = 0;
  gas = 0;
  gas_price = 0;
  is_state_tx = false;
  input = [];
}

abbrev some_header : Header
some_header = record {
  hash = 31;
  parent_hash = 30;
  sha3_uncles = 0;
  miner = 4 ∷ [];
  state_root = 0;
  tx_root = 0;
  receipts_root = 0;
  logs_bloom = [];
  difficulty = 1;
  number = 6;
  gas_limit = 0;
  gas_used = 0;
  timestamp = 0;
  base_fee = 0;
  extra_data = encode_extra_data_fields plain_wire ((key_fraud_proof_of, 9 ∷ []) ∷ []);
}

abbrev proof_block : Block
proof_block = record { header = some_header; transactions = []; uncles = [] }

abbrev fraud_block_of : ℕ → Block
fraud_block_of m = record {
  header = record some_header { hash = 9; miner = m ∷ [] };
  transactions = [];
  uncles = [];
}

abbrev services : Services
services = record {
  node_addr = 7;
  to_address = plain_wire.bytes_to_address;
  get_block_by_hash = λ h full. if h == 9 then some (fraud_block_of 5) else none;
  check = λ b. false;
  produce_begin_dispute_resolution_block = λ addr h kind. some (fraud_block_of addr);
  produce_slash_block = λ proof dispute addr h kind. some (fraud_block_of 0);
}

abbrev running : Fraud
running = record {
  fraud_block = none;
  last_fraud_disputed_tx = none;
  chain_process_status = 1;
  block_production_enabled = true;
}

abbrev stopped : Fraud
stopped = record {
  fraud_block = some proof_block;
  last_fraud_disputed_tx = some 21;
  chain_process_status = 0;
  block_production_enabled = false;
}

abbrev settled : Fraud
settled = record stopped {
  fraud_block = none;
  chain_process_status = 1;
  block_production_enabled = true;
}

slashing :
    check_and_slash plain_wire services stopped
    ≡ (ok (fraud_block_of 5 ∷ fraud_block_of 0 ∷ []), settled)
unfolding check_and_slash judge slash_node is_ready_to_slash end_dispute_resolution set_chain_status
    decode_extra_data_fields decode_pairs encode_extra_data_fields field_values lookup insert sort
    bytes_eq bytes_leb target_in extra_data_target get_extra_data_fraud_proof_target
slashing = refl

check_and_slash-once_example :
    (settled.block_production_enabled ≡ true)
    × (settled.fraud_block ≡ none)
    × (check_and_slash plain_wire services settled ≡ (ok [], settled))
check_and_slash-once_example =
    check_and_slash-once plain_wire services services stopped settled (fraud_block_of 5)
      (fraud_block_of 0 ∷ []) slashing

abbrev begins : Transaction → Option Bool
begins tx = some true

abbrev watches : Address → Option Bool
watches a = some (a == 4)

pool_stops : (watch_pool begins watches 1 (pool_tx ∷ []) running).1.block_production_enabled ≡ false
unfolding watch_pool consider_tx set_chain_status
pool_stops = refl

only_pool_tx : (t : Transaction) → Memᴰ t (pool_tx ∷ []) → t.hash ≡ pool_tx.hash
only_pool_tx t (Memᴰ.head e) = ap (λ (x : Transaction). x.hash) e
only_pool_tx t (Memᴰ.tail m) = elim m [ ]

watch_pool-stops_example :
    (tx : Transaction) × Memᴰ tx (pool_tx ∷ [])
    × (begins tx ≡ some true)
    × (watches tx.from ≡ some true)
    × (tx.to ≡ some 1)
    × ((watch_pool begins watches 1 (pool_tx ∷ []) running).1.last_fraud_disputed_tx ≡ some tx.hash)
watch_pool-stops_example = watch_pool-stops begins watches 1 (pool_tx ∷ []) running refl pool_stops

abbrev look : Peek
look = record { is_begin_tx = begins; is_watchtower = watches; contract = 1; txs = pool_tx ∷ [] }

abbrev over_pool_tx : Fraud
over_pool_tx = record {
  fraud_block = none;
  last_fraud_disputed_tx = some 21;
  chain_process_status = 0;
  block_production_enabled = false;
}

pool_disputed : Reachable plain_wire (look ∷ []) over_pool_tx
unfolding watch_pool consider_tx set_chain_status
pool_disputed =
    step (some look) start (peek look (record running { block_production_enabled = false }))

Reachable-IsTraced_example : IsTraced (look ∷ []) over_pool_tx
Reachable-IsTraced_example = Reachable-IsTraced plain_wire (look ∷ []) over_pool_tx pool_disputed

abbrev plain_kv : Kv
plain_kv = memory_kv (λ k. k)

abbrev two_stores : Snapshotter plain_kv dict_store
two_stores = record { chain = record { db = (7 ∷ [], 1 ∷ []) ∷ []; changes = none }; state = quiet }

abbrev mixed_writes : List Write
mixed_writes =
    to_chain (7 ∷ []) (2 ∷ []) ∷ to_state (3 ∷ []) (6 ∷ []) ∷ to_chain (8 ∷ []) (4 ∷ []) ∷ []

abbrev next_head : Header
next_head = record some_header { number = some_header.number + 1; hash = 9 }

abbrev peer : Peer plain_kv dict_store
peer = record { storages = two_stores; head = some_header }

abbrev keep_head :
    Peer plain_kv dict_store → Outcome Types.Error (Unit {0}) × Peer plain_kv dict_store
keep_head p = (ok tt, p)

abbrev first_written : KvStorage plain_kv
first_written = record {
  db = insert (7 ∷ []) (2 ∷ []) two_stores.chain.db;
  changes = some (insert (7 ∷ []) (2 ∷ []) []);
}

abbrev three_written : Snapshotter plain_kv dict_store
three_written = record {
  chain = record {
    db = insert (8 ∷ []) (4 ∷ []) first_written.db;
    changes = some (insert (8 ∷ []) (4 ∷ []) (insert (7 ∷ []) (2 ∷ []) []));
  };
  state = put_state dict_store (3 ∷ []) (6 ∷ []) (begin_both plain_kv dict_store two_stores).state;
}
