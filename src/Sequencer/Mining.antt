-- ===== src/Sequencer/Mining.antt =====
-- consensus/avail/sequencer.go: `writeBlock`, the block of a sequencer's turn up to its hash. The
-- snapshot is in Sequencer/Distribution.
pub mod Signed
use availproject_op_evm.Prelude.{
  ℕ, ◌+◌, ◌%◌, Bool, Option, none, some, List, [], ◌∷◌, map_error, Outcome, ok, err, panic, ◌>>=◌,
  or_fail, ltb, if◌then◌else◌,
}
use availproject_op_evm.Chain.Types.{Hash, Address, u64_mod, Header, Transaction, Block}
use availproject_op_evm.Extra
use availproject_op_evm.Extra.{assign_extra_validators}
use availproject_op_evm.Extra.Encoding.{Wire}
use availproject_op_evm.Seal.{Crypto, write_seal}
use availproject_op_evm.Build.{Executor, fresh_header}
use availproject_op_evm.Sequencer.{WriteResult, Filler, write_transactions}

pub data Error : Type 0 where
  no_gas_limit no_state : Error
  extra_data : Extra.Error → Error
  -- No error of the program: the loop over the pool has used up its rounds.
  fill_out_of_fuel : Error

-- The transaction pool, and the transitions of the executor that its transactions are run on.
pub record TxPool (x : Executor) : Type 1 where
  pub Pool : Type 0
  pub prepare : Pool → Pool
  pub peek : Pool → Option (Transaction × Pool)
  pub pop : Transaction → Pool → Pool
  pub demote : Transaction → Pool → Pool
  pub drop_tx : Transaction → Pool → Pool
  pub write : Transaction → x.Transition → WriteResult x.Transition

module _ (x : Executor) (p : TxPool x) where
  abbrev pub filler : Filler
  filler = record {
    Pool = p.Pool;
    prepare = p.prepare;
    peek = p.peek;
    pop = p.pop;
    demote = p.demote;
    drop_tx = p.drop_tx;
    Transition = x.Transition;
    write = p.write;
  }

  module _ (w : Wire) (c : Crypto) where
    -- The time of the block: that of the parent and the block time after it, or now if that is past.
    abbrev pub block_time_after : Header → ℕ → ℕ
    block_time_after parent block_time =
        if ltb (parent.timestamp + block_time) x.now then x.now else parent.timestamp + block_time

    -- The header that the transactions are run on.
    unfoldable pub mining_header : Header → Address → ℕ → Outcome Error Header
    mining_header parent addr block_time = do
      gas ← or_fail (x.calculate_gas_limit ((parent.number + 1) % u64_mod)) no_gas_limit
      map_error extra_data (
          assign_extra_validators w
            (record (fresh_header w c x parent) {
              miner = w.address_bytes addr;
              gas_limit = gas;
              timestamp = block_time_after parent block_time;
            })
            (addr ∷ []))

    -- The block from the transactions that were chosen.
    unfoldable pub finish_block :
        c.PrivateKey → Header → List Transaction → x.Transition → Outcome Error Block
    finish_block key header txs t = do
      let blk =
          x.build_block (record header { state_root = x.commit t; gas_used = x.total_gas t }) txs
            (x.receipts t)
      sealed ← map_error extra_data (write_seal w c key blk.header)
      ok (record blk { header = record sealed { hash = x.header_hash sealed } })

    -- `writeBlock` up to `ComputeHash`. The fraud server may append a transaction to those chosen.
    unfoldable pub mine :
        ℕ
        → (ℕ → Bool)
        → (Transaction → Bool)
        → (List Transaction → List Transaction)
        → Header
        → Address
        → c.PrivateKey
        → ℕ
        → p.Pool
        → Outcome Error (Block × p.Pool)
    mine fuel disabled is_begin sabotage parent addr key block_time pool = do
      header ← mining_header parent addr block_time
      t0 ← or_fail (x.begin_txn parent.state_root header addr) no_state
      (txs, pool', t) ←
          or_fail (write_transactions filler fuel disabled is_begin pool t0) fill_out_of_fuel
      blk ← finish_block key header (sabotage txs) t
      ok (blk, pool')
