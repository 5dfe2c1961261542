-- ===== src/Chain/Types.antt =====
-- The block types that every part of the node handles: those fields of polygon-edge's headers,
-- transactions and blocks that the node reads or writes. Hashes and addresses are only compared,
-- so they are numbers; number zero stands for `types.ZeroHash` and `types.ZeroAddress`.
use availproject_op_evm.Prelude.{Option, ℕ, ◌^◌, Bool, List}
use availproject_op_evm.Prelude.Bytes.{Bytes}

abbrev pub Hash : Type 0
Hash = ℕ

abbrev pub Address : Type 0
Address = ℕ

-- One more than the largest `uint64`.
abbrev pub u64_mod : ℕ
u64_mod = 2 ^ 64

pub record Header : Type 0 where
  pub hash : Hash
  pub parent_hash : Hash
  pub sha3_uncles : Hash
  pub miner : Bytes
  pub state_root : Hash
  pub tx_root : Hash
  pub receipts_root : Hash
  pub logs_bloom : Bytes
  pub difficulty : ℕ
  pub number : ℕ
  pub gas_limit : ℕ
  pub gas_used : ℕ
  pub timestamp : ℕ
  pub base_fee : ℕ
  pub extra_data : Bytes

-- `is_state_tx` is the test `tx.Type == types.StateTx`.
pub record Transaction : Type 0 where
  pub hash : Hash
  pub from : Address
  -- `none` is nil: the transaction creates a contract.
  pub to : Option Address
  pub nonce : ℕ
  pub gas : ℕ
  pub gas_price : ℕ
  pub is_state_tx : Bool
  pub input : Bytes

pub record Block : Type 0 where
  pub header : Header
  pub transactions : List Transaction
  pub uncles : List Header

-- The errors of package blockchain, and of package validator under the same names.
pub data Error : Type 0 where
  no_block parent_not_found invalid_parent_hash parent_hash_mismatch invalid_block_sequence : Error
  invalid_sha3_uncles invalid_tx_root invalid_receipts_size invalid_state_root : Error
  invalid_gas_used invalid_receipts_root gas_used_exceeds_limit invalid_gas_limit : Error
  storage_failed difficulty_not_found header_not_found genesis_mismatch : Error
  execution_failed unverified_header sender_failed : Error
  -- No error of the program: a loop of the model has used up its rounds.
  out_of_fuel : Error
