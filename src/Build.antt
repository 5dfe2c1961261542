-- ===== src/Build.antt =====
-- pkg/block/builder.go: a block on a parent, from its defaults to its seal.
pub mod Sealed
pub mod OnParent
pub mod Targets
use availproject_op_evm.Prelude.{
  map_error, ℕ, ◌+◌, ◌%◌, ◌≡◌, not, Option, none, some, List, [], ◌∷◌, ◌++◌, Outcome, ok, err,
  panic, ◌>>=◌, or_fail, ◌==◌, if◌then◌else◌,
}
use availproject_op_evm.Prelude.Bytes.{Bytes}
use availproject_op_evm.Prelude.Dict.{Dict, insert}
use availproject_op_evm.Chain.Types.{Hash, Address, u64_mod, Header, Transaction, Block}
use availproject_op_evm.Extra
use availproject_op_evm.Extra.{ValidatorExtra, encode_extra_data_fields, put_validator_extra}
use availproject_op_evm.Extra.Encoding.{Wire}
use availproject_op_evm.Seal.{Crypto, write_seal}

pub data Error : Type 0 where
  sign_key_missing invalid_hash no_gas_limit no_state transaction_failed : Error
  extra_data : Extra.Error → Error

-- What a builder calls: polygon-edge's execution of transactions on a state, `BuildBlock`, which
-- computes the roots of a block, and the header's hash function; the chain's headers and gas limits;
-- and the clock.
pub record Executor : Type 1 where
  pub Transition : Type 0
  pub Receipt : Type 0
  pub begin_txn : Hash → Header → Address → Option Transition
  pub get_nonce : Transition → Address → ℕ
  pub write : Transaction → Transition → Option Transition
  pub commit : Transition → Hash
  pub total_gas : Transition → ℕ
  pub receipts : Transition → List Receipt
  pub build_block : Header → List Transaction → List Receipt → Block
  pub header_hash : Header → Hash
  pub get_header_by_hash : Hash → Option Header
  pub calculate_gas_limit : ℕ → Option ℕ
  pub now : ℕ

module _ (x : Executor) where
  -- `BuildBlock` sets the roots, the bloom filter and the hash of the header, and nothing else.
  pub record ExecutorLaws : Type 0 where
    pub build_block-transactions :
        (h : Header) (txs : List Transaction) (rs : List x.Receipt)
        → (x.build_block h txs rs).transactions ≡ txs
    pub build_block-header :
        (h : Header) (txs : List Transaction) (rs : List x.Receipt)
        → (x.build_block h txs rs).header ≡ record h {
          hash = (x.build_block h txs rs).header.hash;
          sha3_uncles = (x.build_block h txs rs).header.sha3_uncles;
          tx_root = (x.build_block h txs rs).header.tx_root;
          receipts_root = (x.build_block h txs rs).header.receipts_root;
          logs_bloom = (x.build_block h txs rs).header.logs_bloom;
        }

abbrev pub lift_extra : {A : Type 0} → Outcome Extra.Error A → Outcome Error A
lift_extra = map_error extra_data

module _ (w : Wire) (c : Crypto) (x : Executor) where
  -- `blockBuilder`: what is `none` was not set. The parent hash of the builder is set by default and
  -- never read, so it is left out.
  pub record Builder : Type 0 where
    pub coinbase : Option Address
    pub difficulty : Option ℕ
    pub parent_root : Option Hash
    pub gas_limit : Option ℕ
    pub header : Header
    pub parent : Header
    pub extra_fields : Dict Bytes
    pub transactions : List Transaction
    pub sign_key : Option c.PrivateKey

  -- The header of `FromParentHeader`: the fields that are not given are Go's zero values.
  abbrev pub fresh_header : Header → Header
  fresh_header parent = record {
    hash = 0;
    parent_hash = parent.hash;
    sha3_uncles = 0;
    miner = [];
    state_root = 0;
    tx_root = 0;
    receipts_root = 0;
    logs_bloom = [];
    difficulty = 0;
    number = (parent.number + 1) % u64_mod;
    gas_limit = parent.gas_limit;
    gas_used = 0;
    timestamp = 0;
    base_fee = 0;
    extra_data = [];
  }

  unfoldable pub from_parent_header : Header → Builder
  from_parent_header parent = record {
    coinbase = none;
    difficulty = none;
    parent_root = none;
    gas_limit = none;
    header = fresh_header parent;
    parent = parent;
    extra_fields = [];
    transactions = [];
    sign_key = none;
  }

  unfoldable pub from_parent_hash : Hash → Outcome Error Builder
  from_parent_hash hash =
      or_fail (x.get_header_by_hash hash) invalid_hash >>= λ h. ok (from_parent_header h)

  unfoldable pub set_block_number : ℕ → Builder → Builder
  set_block_number n b = record b { header = record b.header { number = n } }

  unfoldable pub set_coinbase_address : Address → Builder → Builder
  set_coinbase_address a b = record b { coinbase = some a }

  unfoldable pub set_difficulty : ℕ → Builder → Builder
  set_difficulty d b = record b { difficulty = some d }

  unfoldable pub set_extra_data_field : Bytes → Bytes → Builder → Builder
  set_extra_data_field key value b = record b { extra_fields = insert key value b.extra_fields }

  unfoldable pub set_gas_limit : ℕ → Builder → Builder
  set_gas_limit limit b = record b { gas_limit = some limit }

  unfoldable pub set_parent_state_root : Hash → Builder → Builder
  set_parent_state_root root b = record b { parent_root = some root }

  unfoldable pub add_transactions : List Transaction → Builder → Builder
  add_transactions txs b = record b { transactions = b.transactions ++ txs }

  unfoldable pub sign_with : c.PrivateKey → Builder → Builder
  sign_with key b = record b { sign_key = some key }

  -- `setDefaults`, for each of the fields.
  abbrev pub or_default : {A : Type 0} → Option A → A → A
  or_default none d = d
  or_default (some a) d = a

  abbrev pub coinbase_of : Builder → Address
  coinbase_of b = or_default b.coinbase (w.bytes_to_address b.parent.miner)

  -- The gas limit of `Build`: a limit of zero counts as not set. The limit is then the one that the
  -- chain computes for the parent's number.
  unfoldable pub gas_limit_of : Builder → Outcome Error ℕ
  gas_limit_of b =
      if not (or_default b.gas_limit 0 == 0)
      then ok (or_default b.gas_limit 0)
      else if b.parent.number == 0
      then ok b.parent.gas_limit
      else or_fail (x.calculate_gas_limit b.parent.number) no_gas_limit

  -- The loop over the transactions, which also fills in nonces that are zero.
  unfoldable pub write_all :
      List Transaction → x.Transition → Outcome Error (List Transaction × x.Transition)
  write_all [] t = ok ([], t)
  write_all (tx ∷ txs) t = do
    let tx' = (if tx.nonce == 0 then record tx { nonce = x.get_nonce t tx.from } else tx)
    t' ← or_fail (x.write tx' t) transaction_failed
    (written, last) ← write_all txs t'
    ok (tx' ∷ written, last)

  -- The header that the transactions are run on.
  abbrev pub prepared_header : Builder → ℕ → Header
  prepared_header b limit = record b.header {
    difficulty = or_default b.difficulty 0;
    extra_data = encode_extra_data_fields w b.extra_fields;
    gas_limit = limit;
    miner = w.address_bytes (coinbase_of b);
    timestamp = x.now;
  }

  -- `PutValidatorExtra`, `WriteSeal` and `ComputeHash` at the end of `Build`.
  unfoldable pub seal_block : c.PrivateKey → Block → Outcome Error Block
  seal_block key blk = do
    with_validators ← lift_extra (
        put_validator_extra w blk.header (record {
          validators = w.bytes_to_address blk.header.miner ∷ [];
          seal = [];
          committed_seal = [];
        }))
    sealed ← lift_extra (write_seal w c key with_validators)
    ok (record blk { header = record sealed { hash = x.header_hash sealed } })

  -- `Build`.
  unfoldable pub build : Builder → Outcome Error Block
  build b = do
    key ← or_fail b.sign_key sign_key_missing
    limit ← gas_limit_of b
    t0 ←
        or_fail
          (x.begin_txn (or_default b.parent_root b.parent.state_root) (prepared_header b limit)
            (coinbase_of b))
          no_state
    (written, t) ← write_all b.transactions t0
    seal_block key (
        x.build_block
          (record (prepared_header b limit) { state_root = x.commit t; gas_used = x.total_gas t })
          written (x.receipts t))
