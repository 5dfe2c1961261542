-- ===== src/Chain/Blocks.antt =====
-- Whole blocks in pkg/blockchain/blockchain.go: `WriteBlock`, `WriteFullBlock` and what they call,
-- and the reads of blocks.
pub mod Written
pub mod ReadBack
pub mod Unfinished
use availproject_op_evm.Prelude.{
  ℕ, ◌+◌, ◌-◌, ◌%◌, Bool, true, false, not, ◌||◌, Option, none, some, List, [], ◌∷◌, Outcome, ok,
  err, panic, leb, ◌==◌, if◌then◌else◌,
}
use availproject_op_evm.Chain.Types.{
  Hash, Address, u64_mod, Header, Transaction, Block, Error, sender_failed, parent_not_found,
}
use availproject_op_evm.Chain.Gas.{calculate_gas_limit}
use availproject_op_evm.Chain.Fee.{GasPriceAverage, update_gas_price_avg_with_block}
use availproject_op_evm.Chain.Verify.{Execution, execute_block_transactions}
use availproject_op_evm.Chain.Monad.{Action, ◌>>=◌, ◌>>◌, pure, gets, or_error, modify}
use availproject_op_evm.Chain.Store.{Storage}
use availproject_op_evm.Chain.Archive.{Archive, Body}
use availproject_op_evm.Chain.Writes.{
  Env, Chain, new_event, write, read_header, get_header_by_number, write_header_impl,
  dispatch_event,
}

-- What blocks need besides the chain of headers: the execution, the archive, the signer of
-- transactions, and `tx.GetGasPrice(baseFee)`.
pub record Setting : Type 1 where
  pub env : Env
  pub execution : Execution
  pub archive : Archive env.storage execution.Receipt
  pub sender : Transaction → Option Address
  pub get_gas_price : Transaction → ℕ → ℕ

-- The sender is set, or not looked for.
abbrev pub has_sender : Transaction → Bool
has_sender tx = not (tx.from == 0) || tx.is_state_tx

module _ (x : Setting) where
  open x use {env, execution, archive, sender, get_gas_price}

  -- `Blockchain`, beyond its headers.
  pub record Ledger : Type 0 where
    pub chain : Chain env
    pub receipts_cache : execution.Receipts
    pub gp_average : GasPriceAverage
    pub genesis : Hash

  -- A call on the headers.
  abbrev pub lift : {A : Type 0} → Action (Chain env) A → Action Ledger A
  lift m s = ((m s.chain).0, record s { chain = (m s.chain).1 })

  abbrev pub prepend :
      Transaction → Outcome Error (List Transaction) → Outcome Error (List Transaction)
  prepend tx (ok txs) = ok (tx ∷ txs)
  prepend tx (err e) = err e
  prepend tx panic = panic

  -- `recoverFromFieldsInBlock`.
  unfoldable pub recover_from_fields_in_block : List Transaction → Outcome Error (List Transaction)
  recover_from_fields_in_block [] = ok []
  recover_from_fields_in_block (tx ∷ txs) =
      let rest = recover_from_fields_in_block txs in
      if has_sender tx then prepend tx rest else elim (sender tx) [
        | none ↦ err sender_failed
        | some from ↦ prepend (record tx { from = from }) rest
      ]

  -- `recoverFromFieldsInTransactions`: was one updated?
  pub recover_from_fields_in_transactions : List Transaction → List Transaction × Bool
  recover_from_fields_in_transactions [] = ([], false)
  recover_from_fields_in_transactions (tx ∷ txs) =
      let (done, updated) = recover_from_fields_in_transactions txs in
      if has_sender tx then (tx ∷ done, updated) else elim (sender tx) [
        | none ↦ (tx ∷ done, updated)
        | some from ↦ (record tx { from = from } ∷ done, true)
      ]

  pub write_tx_lookups : Hash → List Transaction → Action (Chain env) (Unit {0})
  write_tx_lookups block [] = pure tt
  write_tx_lookups block (tx ∷ txs) = do
    write env (archive.write_tx_lookup tx.hash block)
    write_tx_lookups block txs

  -- `writeBody`. The senders are set in the block itself, so the block after it is returned.
  pub write_body : Block → Action (Chain env) Block
  unfolding write_tx_lookups
  write_body block = do
    txs ← (λ c. (recover_from_fields_in_block block.transactions, c))
    write env (
        archive.write_body block.header.hash (record { transactions = txs; uncles = block.uncles }))
    write_tx_lookups block.header.hash txs
    pure (record block { transactions = txs })

  -- The receipts of a block that is executed again.
  pub execute_for_receipts : Block → Action Ledger (List execution.Receipt)
  unfolding execute_block_transactions
  execute_for_receipts block = do
    parent ← lift (read_header env block.header.parent_hash)
    run ← (λ s. (execute_block_transactions execution (λ k. parent) s.receipts_cache block, s))
    modify λ s. record s { receipts_cache = run.1 }
    pure run.0.receipts

  -- `extractBlockReceipts`.
  pub extract_block_receipts : Block → Action Ledger (List execution.Receipt)
  extract_block_receipts block s = elim (execution.cached s.receipts_cache block.header.hash) [
    | some rs ↦ (ok rs, s)
    | none ↦ execute_for_receipts block s
  ]

  -- What `WriteBlock` and `WriteFullBlock` do once the receipts are stored. The consensus' part,
  -- `ProcessHeaders`, does nothing. The header before is read for the log.
  pub finish_write : Block → Action Ledger (Unit {0})
  unfolding dispatch_event
  finish_write block = do
    event ← lift (gets λ c. c.event)
    lift (dispatch_event env event)
    modify λ s. record s {
      gp_average = update_gas_price_avg_with_block get_gas_price s.gp_average block;
    }
    lift (get_header_by_number env ((block.header.number + u64_mod - 1) % u64_mod))
    pure tt

  -- The body and the header, under a new event.
  pub write_body_and_header : ℕ → Block → Action (Chain env) Block
  write_body_and_header fuel block = do
    written ← write_body block
    modify λ c. record c { event = new_event }
    write_header_impl env fuel block.header
    pure written

  -- `WriteBlock` and `WriteFullBlock` of a block above the head, over where the receipts come from.
  pub write_new_block :
      (Block → Action Ledger (List execution.Receipt)) → ℕ → Block → Action Ledger (Unit {0})
  unfolding finish_write write_body_and_header
  write_new_block receipts_of fuel block = do
    written ← lift (write_body_and_header fuel block)
    rs ← receipts_of written
    lift (write env (archive.write_receipts block.header.hash rs))
    finish_write written

  -- `WriteBlock`.
  pub write_block : ℕ → Block → Action Ledger (Unit {0})
  write_block fuel block s =
      if leb block.header.number s.chain.current_header.number
      then (ok tt, s)
      else write_new_block extract_block_receipts fuel block s

  -- `WriteFullBlock`.
  pub write_full_block : ℕ → Block → List execution.Receipt → Action Ledger (Unit {0})
  write_full_block fuel block rs s =
      if leb block.header.number s.chain.current_header.number
      then (ok tt, s)
      else write_new_block (λ written. pure rs) fuel block s

  -- `readBody`: senders that were not stored are recovered and stored, if the database takes it.
  pub read_body : Hash → Action (Chain env) (Option Body)
  read_body hash c = elim ((archive.contents c.db).body hash) [
    | none ↦ (ok none, c)
    | some stored ↦
        let (txs, updated) = recover_from_fields_in_transactions stored.transactions in
        let body = record stored { transactions = txs } in
        (
          ok (some body),
          if updated
              then elim (archive.write_body hash body c.db) [
                | none ↦ c
                | some d ↦ record c { db = d }
              ]
              else c,
        )
  ]

  -- A block without its body.
  abbrev pub bare : Header → Block
  bare h = record { header = h; transactions = []; uncles = [] }

  pub with_body : Hash → Header → Action (Chain env) (Option Block × Bool)
  unfolding read_body
  with_body hash h = do
    body ← read_body hash
    elim body [
      | none ↦ pure (some (bare h), false)
      | some b ↦
          pure
            (some (record { header = h; transactions = b.transactions; uncles = b.uncles }), true)
    ]

  -- `GetBlockByHash`.
  pub get_block_by_hash : Hash → Bool → Action (Chain env) (Option Block × Bool)
  unfolding with_body
  get_block_by_hash hash full = do
    header ← read_header env hash
    elim header [
      | none ↦ pure (none, false)
      | some h ↦ if not full || h.number == 0 then pure (some (bare h), true) else with_body hash h
    ]

  -- `GetBlockByNumber`.
  pub get_block_by_number : ℕ → Bool → Action (Chain env) (Option Block × Bool)
  unfolding get_block_by_hash
  get_block_by_number n full c = elim ((Storage.view env.storage c.db).canonical n) [
    | none ↦ (ok (none, false), c)
    | some hash ↦ get_block_by_hash hash (if n == 0 then false else full) c
  ]

  abbrev pub hash_of : Option Block × Bool → Hash
  hash_of (none, found) = 0
  hash_of (some b, found) = if found then b.header.hash else 0

  -- `GetHashByNumber`.
  pub get_hash_by_number : ℕ → Action (Chain env) Hash
  unfolding get_block_by_number
  get_hash_by_number n = get_block_by_number n false >>= λ r. pure (hash_of r)

  -- `CalculateGasLimit`, over the target of the configuration.
  pub calculate_gas_limit_at : ℕ → ℕ → Action (Chain env) ℕ
  calculate_gas_limit_at target n = do
    found ← get_header_by_number env ((n + u64_mod - 1) % u64_mod)
    parent ← or_error found parent_not_found
    pure (calculate_gas_limit target parent.gas_limit)
