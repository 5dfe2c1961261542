-- ===== src/Chain/Blocks/Unfinished.antt =====
-- `WriteBlock` of a block that does not execute: the header is written first.
use availproject_op_evm.Prelude.{
  ℕ, ◌≡◌, refl, ◌∙◌, ap, true, false, Option, none, some, List, ok, err, arith, leb, ==_iff,
}
use availproject_op_evm.Chain.Types.{Header, Transaction, Block, execution_failed}
use availproject_op_evm.Chain.Monad.{Action, ◌>>=◌, ◌>>◌, pure, modify, >>=-ok, >>=-err}
use availproject_op_evm.Chain.Store.{StorageLaws, LruLaws}
use availproject_op_evm.Chain.Archive.{ArchiveLaws, IsReliable}
use availproject_op_evm.Chain.Verify.{execute_block_transactions}
use availproject_op_evm.Chain.Writes.{read_header, write}
use availproject_op_evm.Chain.Writes.Reads.{HeadersAgree, loaded, read_header-cache}
use availproject_op_evm.Chain.Blocks.{
  Setting, Ledger, lift, write_body_and_header, finish_write, write_new_block, write_block,
  extract_block_receipts, execute_for_receipts,
}
use availproject_op_evm.Chain.Blocks.Written.{write_body_and_header-IsOnTop, HeadersAgree-update}
use availproject_op_evm.Chain.Blocks.ReadBack.{IsNext, lift-ok}

module _ (x : Setting) (hlaws : LruLaws x.env.headers) where
  open x use {env, execution, archive}
  open env use {storage}

  -- A block whose parent is known and that does not execute has no receipts, unless cached ones.
  extract_block_receipts-failed :
      (s : Ledger x) (block : Block) (parent : Header)
      → HeadersAgree env s.chain
      → execution.cached s.receipts_cache block.header.hash ≡ none
      → loaded env s.chain block.header.parent_hash ≡ some parent
      → execution.process_block parent.state_root block (execution.block_creator block.header)
        ≡ none
      → (cache : _) × (extract_block_receipts x block s
          ≡ (err execution_failed, record s { chain = record s.chain { headers_cache = cache } }))
  unfolding extract_block_receipts execute_for_receipts
  extract_block_receipts-failed s block parent agree uncached known fails =
      let (cache, e, agree') = read_header-cache env hlaws s.chain block.header.parent_hash agree in
      (
        cache,
        rw (uncached, extract_block_receipts)
            (>>=-ok (lift x (read_header env block.header.parent_hash)) after
                (lift-ok x (read_header env block.header.parent_hash) s e)
              ∙ rw known (rw fails refl)),
      )
    where
      after : Option Header → Action (Ledger x) (List execution.Receipt)
      after read =
          (λ t. (execute_block_transactions execution (λ k. read) t.receipts_cache block, t))
          >>= λ run. modify (λ t. record t { receipts_cache = run.1 }) >> pure run.0.receipts

  -- A block that extends the head, and that neither executes nor has its receipts cached, leaves the
  -- chain half written, on a database that takes every write: `WriteBlock` ends in the error of the
  -- execution, but the block is the head already; no event was sent, and no receipts were stored
  -- in the database, for it or any other block. Another try reports success and changes nothing.
  pub write_block-unfinished :
      StorageLaws storage
      → ArchiveLaws storage execution.Receipt archive
      → IsReliable storage execution.Receipt archive
      → (fuel : ℕ) (s : Ledger x) (block : Block) (txs : List Transaction) (parent_td : ℕ)
        (parent : Header)
      → IsNext x s block txs parent_td
      → execution.cached s.receipts_cache block.header.hash ≡ none
      → loaded env s.chain block.header.parent_hash ≡ some parent
      → execution.process_block parent.state_root
          (record block { transactions = txs })
          (execution.block_creator block.header)
        ≡ none
      → (s' : Ledger x) × (write_block x fuel block s ≡ (err execution_failed, s'))
        × (s'.chain.current_header ≡ block.header)
        × (s'.chain.stream ≡ s.chain.stream)
        × ((archive.contents s'.chain.db).receipts ≡ (archive.contents s.chain.db).receipts)
        × (write_block x fuel block s' ≡ (ok tt, s'))
  unfolding write_block write_new_block
  write_block-unfinished slaws alaws reliable fuel s block txs parent_td parent next uncached known
        fails =
      let written : Block = record block { transactions = txs } in
      let (c, e, top) =
        write_body_and_header-IsOnTop x slaws alaws reliable fuel s.chain block txs parent_td
          next.recovered next.difficulties_agree next.on_head next.parent_stored in
      let t : Ledger x = record s { chain = c } in
      let agree : HeadersAgree env c =
        HeadersAgree-update x s.chain c block.header top.cache top.stored next.fresh
          next.headers_agree in
      let known' : loaded env c block.header.parent_hash ≡ some parent =
        ground (
          arith,
          top.stored,
          next.fresh,
          known,
          ==_iff block.header.hash block.header.parent_hash,
        ) in
      let (cache, e') =
        extract_block_receipts-failed t written parent agree uncached known' fails in
      let test : leb block.header.number s.chain.current_header.number ≡ false =
        ground (arith, next.above) in
      let retest : leb block.header.number c.current_header.number ≡ true =
        ground (arith, ap (λ (h : Header). h.number) top.head) in
      (
        record t { chain = record c { headers_cache = cache } },
        rw (test, write_block)
            (>>=-ok (lift x (write_body_and_header x fuel block)) after_header
                (lift-ok x (write_body_and_header x fuel block) s e)
              ∙ >>=-err (extract_block_receipts x written) (after_receipts written) e'),
        top.head,
        top.quiet,
        top.receipts,
        rw (retest, write_block) refl,
      )
    where
      after_receipts : Block → List execution.Receipt → Action (Ledger x) (Unit {0})
      after_receipts w rs =
          lift x (write env (archive.write_receipts block.header.hash rs)) >> finish_write x w

      after_header : Block → Action (Ledger x) (Unit {0})
      after_header w = extract_block_receipts x w >>= after_receipts w
