-- ===== src/Chain/Genesis.antt =====
-- `ComputeGenesis` of pkg/blockchain/blockchain.go: where a chain starts, on an empty database and on
-- one that a process left.
pub mod Restart
use availproject_op_evm.Prelude.{Option, none, some, ◌==◌, if◌then◌else◌}
use availproject_op_evm.Chain.Types.{
  Hash, Header, header_not_found, difficulty_not_found, genesis_mismatch,
}
use availproject_op_evm.Chain.Monad.{Action, ◌>>=◌, ◌>>◌, pure, fail, gets, or_error, modify}
use availproject_op_evm.Chain.Store.{Storage}
use availproject_op_evm.Chain.Writes.{
  Env, Chain, read_header, read_total_difficulty, set_current_header, write_genesis_impl,
}
use availproject_op_evm.Chain.Blocks.{Setting, Ledger, lift}

module _ (x : Setting) where
  open x use {env}

  abbrev pub set_genesis : Hash → Action (Ledger x) (Unit {0})
  set_genesis hash = modify λ s. record s { genesis = hash }

  -- `writeGenesis`, over the header of the genesis with its hash computed.
  pub write_genesis : Header → Action (Ledger x) (Unit {0})
  write_genesis header = do set_genesis header.hash; lift x (write_genesis_impl env header)

  -- The case of a database with a head. A missing hash is read as the zero hash.
  pub load_head : Header → Hash → Action (Ledger x) (Unit {0})
  load_head genesis_header head = do
    stored ← lift x (gets λ c. (Storage.view env.storage c.db).canonical 0)
    set_genesis (elim stored [ none ↦ 0 | some hash ↦ hash ])
    genesis ← or_error stored header_not_found
    if genesis == genesis_header.hash then pure tt else fail genesis_mismatch
    found_header ← lift x (read_header env head)
    header ← or_error found_header header_not_found
    found_td ← lift x (read_total_difficulty env head)
    td ← or_error found_td difficulty_not_found
    lift x (set_current_header env header td)

  -- `ComputeGenesis`.
  pub compute_genesis : Header → Action (Ledger x) (Unit {0})
  unfolding write_genesis load_head
  compute_genesis genesis_header s = elim ((Storage.view env.storage s.chain.db).head_hash) [
    | some head ↦ load_head genesis_header head s
    | none ↦ write_genesis genesis_header s
  ]
