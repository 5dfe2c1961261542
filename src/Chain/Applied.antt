-- ===== src/Chain/Applied.antt =====
-- The packages that hand a block to the chain's `WriteBlock`: Apply of
-- consensus/avail/validator/validator.go and of consensus/avail/watchtower/watchtower.go, and Write of
-- pkg/block/builder.go.
use availproject_op_evm.Prelude.{ℕ, ◌+◌, ◌≡◌, ap, List, some, Outcome, ok, err, panic}
use availproject_op_evm.Chain.Types
use availproject_op_evm.Chain.Types.{Header, Transaction, Block}
use availproject_op_evm.Chain.Store.{StorageLaws, LruLaws}
use availproject_op_evm.Chain.Archive.{ArchiveLaws, IsReliable}
use availproject_op_evm.Chain.Blocks.{Setting, Ledger, write_block}
use availproject_op_evm.Chain.Blocks.ReadBack.{IsNext, IsWritten, write_block-IsWritten}
use availproject_op_evm.Extra.Encoding.{Wire}
use availproject_op_evm.Seal.{Crypto}
use availproject_op_evm.Build
use availproject_op_evm.Build.{Executor, Builder, build}

-- An error of the chain or of a builder.
pub data Error : Type 0 where
  write_failed : Types.Error → Error
  build_failed : Build.Error → Error

module _ (x : Setting) where
  abbrev pub written :
      Outcome Types.Error (Unit {0}) × Ledger x → Outcome Error (Unit {0}) × Ledger x
  written (ok u, s) = (ok tt, s)
  written (err e, s) = (err (write_failed e), s)
  written (panic, s) = (panic, s)

  -- `Apply` of the validator.
  pub validator_apply : ℕ → Block → Ledger x → Outcome Error (Unit {0}) × Ledger x
  validator_apply fuel blk s = written (write_block x fuel blk s)

  module _ {Pool : Type 0} (reset_with_headers : Header → Pool → Pool) where
    abbrev pub then_reset :
        Header
        → Pool
        → Outcome Types.Error (Unit {0}) × Ledger x
        → Outcome Error (Unit {0}) × Ledger x × Pool
    then_reset h pool (ok u, s) = (ok tt, s, reset_with_headers h pool)
    then_reset h pool (err e, s) = (err (write_failed e), s, pool)
    then_reset h pool (panic, s) = (panic, s, pool)

    -- `Apply` of the watchtower, which resets the pool after a write.
    pub watch_tower_apply : ℕ → Block → Ledger x → Pool → Outcome Error (Unit {0}) × Ledger x × Pool
    watch_tower_apply fuel blk s pool = then_reset blk.header pool (write_block x fuel blk s)

    -- The watchtower applies the next block of its chain: it is written, and the pool is reset with
    -- its header.
    pub watch_tower_apply-IsWritten :
        (slaws : StorageLaws x.env.storage)
        (alaws : ArchiveLaws x.env.storage x.execution.Receipt x.archive)
        (reliable : IsReliable x.env.storage x.execution.Receipt x.archive)
        (hlaws : LruLaws x.env.headers)
        → (fuel : ℕ) (s : Ledger x) (pool : Pool) (block : Block) (txs : List Transaction)
          (parent_td : ℕ) (rs : List x.execution.Receipt)
        → IsNext x s block txs parent_td
        → x.execution.cached s.receipts_cache block.header.hash ≡ some rs
        → (s' : Ledger x) × (watch_tower_apply fuel block s pool
            ≡ (ok tt, s', reset_with_headers block.header pool))
          × IsWritten x s s'
              (record block { transactions = txs })
              rs
              (parent_td + block.header.difficulty)
    unfolding watch_tower_apply
    watch_tower_apply-IsWritten slaws alaws reliable hlaws fuel s pool block txs parent_td rs next
          cached =
        let (s', e, facts) =
          write_block-IsWritten x slaws alaws reliable hlaws fuel s block txs parent_td rs next
            cached in
        (s', ap (then_reset block.header pool) e, facts)

  module _ (w : Wire) (c : Crypto) (ex : Executor) where
    abbrev pub write_built :
        ℕ → Ledger x → Outcome Build.Error Block → Outcome Error (Unit {0}) × Ledger x
    write_built fuel s (ok blk) = written (write_block x fuel blk s)
    write_built fuel s (err e) = (err (build_failed e), s)
    write_built fuel s panic = (panic, s)

    -- `Write` of the builder.
    pub write_builder : ℕ → Builder w c ex → Ledger x → Outcome Error (Unit {0}) × Ledger x
    write_builder fuel b s = write_built fuel s (build w c ex b)
