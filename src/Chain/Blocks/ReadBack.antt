-- ===== src/Chain/Blocks/ReadBack.antt =====
-- What a reader of the chain finds after `WriteBlock`.
use availproject_op_evm.Prelude.{
  ℕ, ◌+◌, ◌-◌, ◌%◌, ◌≡◌, ◌<◌, refl, ◌∙◌, ap, true, false, none, some, List, [], ◌∷◌, ◌++◌, map, ok,
  arith, leb, ◌==◌, ==_refl, elem,
}
use availproject_op_evm.Chain.Types.{Hash, u64_mod, Header, Transaction, Block}
use availproject_op_evm.Chain.Fee.{update_gas_price_avg_with_block}
use availproject_op_evm.Chain.Monad.{Action, ◌>>=◌, ◌>>◌, pure, >>=-ok}
use availproject_op_evm.Chain.Store.{StorageLaws, LruLaws}
use availproject_op_evm.Chain.Archive.{ArchiveLaws, IsReliable, Body}
use availproject_op_evm.Chain.Writes.{Chain, new_event, write, read_header, get_header_by_number}
use availproject_op_evm.Chain.Writes.Reads.{
  HeadersAgree, DifficultiesAgree, loaded, read_header-cache, get_header_by_number-cache, write-ok,
}
use availproject_op_evm.Chain.Blocks.{
  Setting, Ledger, lift, recover_from_fields_in_block, recover_from_fields_in_transactions,
  write_body_and_header, finish_write, write_new_block, write_block, write_full_block,
  extract_block_receipts, get_block_by_number,
}
use availproject_op_evm.Chain.Blocks.Written.{
  write_body_and_header-IsOnTop, HeadersAgree-update, recovered_stays,
}

module _ (x : Setting) where
  open x use {env, execution, archive}
  open env use {storage, headers, compute_hash}

  pub lift-ok :
      {A : Type 0} (m : Action (Chain env) A) (s : Ledger x) {a : A} {c : Chain env}
      → m s.chain ≡ (ok a, c)
      → lift x m s ≡ (ok a, record s { chain = c })
  lift-ok m s e = ap (λ r. (r.0, record s { chain = r.1 })) e

  -- A block whose parts are stored is found by its number.
  pub get_block_by_number-stored :
      LruLaws headers
      → (c : Chain env) (n : ℕ) (k : Hash) (h : Header) (b : Body) → HeadersAgree env c
      → (storage.view c.db).canonical n ≡ some k
      → (storage.view c.db).header k ≡ some h
      → (archive.contents c.db).body k ≡ some b
      → compute_hash h ≡ h
      → (n == 0) ≡ false
      → (h.number == 0) ≡ false
      → (recover_from_fields_in_transactions x b.transactions).0 ≡ b.transactions
      → (get_block_by_number x n true c).0
        ≡ ok (some (record { header = h; transactions = b.transactions; uncles = b.uncles }), true)
  unfolding get_block_by_number
  get_block_by_number-stored hlaws c n k h b agree named stored body hashed above above' stays =
      let (cache, read, agree') = read_header-cache env hlaws c k agree in
      let hit : loaded env c k ≡ some h = ground (arith, stored, hashed) in
      let read' : read_header env k c ≡ (ok (some h), record c { headers_cache = cache }) =
        read ∙ ap (λ l. (ok l, record c { headers_cache = cache })) hit in
      ground (arith, named, read', above, above', body, stays)

  -- The last steps of a write change neither the database nor the head, and send the event.
  finish_write-ok :
      LruLaws headers
      → (s : Ledger x) (block : Block) → HeadersAgree env s.chain
      → (s' : Ledger x) × (finish_write x block s ≡ (ok tt, s'))
        × (s'.chain.db ≡ s.chain.db)
        × (s'.chain.current_header ≡ s.chain.current_header)
        × (s'.chain.stream ≡ s.chain.stream ++ (s.chain.event ∷ []))
        × HeadersAgree env s'.chain
  unfolding finish_write
  finish_write-ok hlaws s block agree =
      let sent : Ledger x = record s {
        chain = record s.chain { stream = s.chain.stream ++ (s.chain.event ∷ []) };
        gp_average = update_gas_price_avg_with_block x.get_gas_price s.gp_average block;
      } in
      let before : ℕ = (block.header.number + u64_mod - 1) % u64_mod in
      let (header, cache, e, agree') =
        get_header_by_number-cache env hlaws sent.chain before agree in
      (
        record sent { chain = record sent.chain { headers_cache = cache } },
        >>=-ok (lift x (get_header_by_number env before)) (λ u. pure tt)
            (lift-ok (get_header_by_number env before) sent e),
        refl,
        refl,
        refl,
        agree',
      )

  -- What is known of a block that was written, whose transactions have their senders.
  -- `td` is the total difficulty up to it.
  pub record IsWritten (s s' : Ledger x) (block : Block) (rs : List execution.Receipt) (td : ℕ)
      : Type 0 where
    pub sent :
        s'.chain.stream
        ≡ s.chain.stream
          ++ (record new_event { new_chain = block.header ∷ []; difficulty = some td } ∷ [])
    pub head : s'.chain.current_header ≡ block.header
    pub read_back :
        (get_block_by_number x block.header.number true s'.chain).0 ≡ ok (some block, true)
    pub receipts : (archive.contents s'.chain.db).receipts block.header.hash ≡ some rs
    pub lookups :
        (k : Hash)
        → elem k (map (λ (tx : Transaction). tx.hash) block.transactions) ≡ true
        → (archive.contents s'.chain.db).tx_lookup k ≡ some block.header.hash

  -- A block that is above the head and has it as its parent, in a chain that knows neither the block
  -- nor another one by its hash; its senders can be recovered.
  pub record IsNext (s : Ledger x) (block : Block) (txs : List Transaction) (parent_td : ℕ)
      : Type 0 where
    pub above : s.chain.current_header.number < block.header.number
    pub on_head : block.header.parent_hash ≡ s.chain.current_header.hash
    pub parent_stored :
        (storage.view s.chain.db).difficulty block.header.parent_hash ≡ some parent_td
    pub fresh : (storage.view s.chain.db).header block.header.hash ≡ none
    pub hashed : compute_hash block.header ≡ block.header
    pub recovered : recover_from_fields_in_block x block.transactions ≡ ok txs
    pub headers_agree : HeadersAgree env s.chain
    pub difficulties_agree : DifficultiesAgree env s.chain

module _ (x : Setting) (slaws : StorageLaws x.env.storage)
    (alaws : ArchiveLaws x.env.storage x.execution.Receipt x.archive)
    (reliable : IsReliable x.env.storage x.execution.Receipt x.archive)
    (hlaws : LruLaws x.env.headers) where
  open x use {env, execution, archive}
  open env use {storage}

  write_new_block-IsWritten :
      (receipts_of : Block → Action (Ledger x) (List execution.Receipt)) (fuel : ℕ) (s : Ledger x)
      (block : Block) (txs : List Transaction) (parent_td : ℕ) (rs : List execution.Receipt)
      → ((t : Ledger x)
          → t.receipts_cache ≡ s.receipts_cache
          → receipts_of (record block { transactions = txs }) t ≡ (ok rs, t))
      → IsNext x s block txs parent_td
      → (s' : Ledger x) × (write_new_block x receipts_of fuel block s ≡ (ok tt, s'))
        × IsWritten x s s'
            (record block { transactions = txs })
            rs
            (parent_td + block.header.difficulty)
  unfolding write_new_block
  write_new_block-IsWritten receipts_of fuel s block txs parent_td rs given next =
      let written : Block = record block { transactions = txs } in
      let k : Hash = block.header.hash in
      let (c, e, top) =
        write_body_and_header-IsOnTop x slaws alaws reliable fuel s.chain block txs parent_td
          next.recovered next.difficulties_agree next.on_head next.parent_stored in
      let t : Ledger x = record s { chain = c } in
      let (d, taken) = reliable.takes_receipts k rs c.db in
      let (same, law) = alaws.receipts_law k rs c.db d taken in
      let u : Ledger x = record s { chain = record c { db = d } } in
      let agree : HeadersAgree env u.chain =
        HeadersAgree-update x s.chain u.chain block.header top.cache
          (ap (λ (v : _). v.header) same ∙ top.stored) next.fresh next.headers_agree in
      let (s', e', db, head, stream, agree') = finish_write-ok x hlaws u written agree in
      let store : Action (Ledger x) (Unit {0}) = lift x (write env (archive.write_receipts k rs)) in
      (
        s',
        >>=-ok (lift x (write_body_and_header x fuel block))
              (λ w. receipts_of w >>= λ r.
                lift x (write env (archive.write_receipts k r)) >> finish_write x w)
              (lift-ok x (write_body_and_header x fuel block) s e)
            ∙ >>=-ok (receipts_of written)
                (λ r. lift x (write env (archive.write_receipts k r)) >> finish_write x written)
                (given t refl)
            ∙ >>=-ok store (λ w. finish_write x written)
                (lift-ok x (write env (archive.write_receipts k rs)) t
                  (write-ok env (archive.write_receipts k rs) c taken))
            ∙ e',
        record {
          sent = stream ∙ rw (top.event, top.quiet) refl;
          head = head ∙ top.head;
          read_back =
              get_block_by_number-stored x hlaws s'.chain block.header.number k block.header
                (record { transactions = txs; uncles = block.uncles }) agree'
                (rw db (rw same top.named))
                (rw db (rw same (rw top.stored (ground (arith, ==_refl k)))))
                (rw db (rw law top.body)) next.hashed (ground (arith, next.above))
                (ground (arith, next.above))
                (recovered_stays x block.transactions txs next.recovered);
          receipts = rw db (rw law (ground (arith, ==_refl k)));
          lookups = λ j listed. rw db (rw law (top.lookups j listed));
        },
      )

  above_test : {a b : ℕ} → a < b → leb b a ≡ false
  above_test h = ground arith

  -- A block that extends the head, and whose receipts were cached when it was verified, is written by
  -- `WriteBlock` on a database that takes every write: it becomes the head, one head event with its
  -- header is sent, a reader finds it by its number with the recovered senders, and finds its
  -- receipts by its hash and it by the hash of each of its transactions.
  pub write_block-IsWritten :
      (fuel : ℕ) (s : Ledger x) (block : Block) (txs : List Transaction) (parent_td : ℕ)
      (rs : List execution.Receipt)
      → IsNext x s block txs parent_td
      → execution.cached s.receipts_cache block.header.hash ≡ some rs
      → (s' : Ledger x) × (write_block x fuel block s ≡ (ok tt, s'))
        × IsWritten x s s'
            (record block { transactions = txs })
            rs
            (parent_td + block.header.difficulty)
  unfolding write_block extract_block_receipts
  write_block-IsWritten fuel s block txs parent_td rs next cached =
      let (s', e, facts) =
        write_new_block-IsWritten (extract_block_receipts x) fuel s block txs parent_td rs
          (λ t same. ground (arith, same, cached)) next in
      (s', rw (above_test next.above, write_block) e, facts)

  -- `WriteFullBlock` does the same with the receipts that it is given.
  pub write_full_block-IsWritten :
      (fuel : ℕ) (s : Ledger x) (block : Block) (txs : List Transaction) (parent_td : ℕ)
      (rs : List execution.Receipt)
      → IsNext x s block txs parent_td
      → (s' : Ledger x) × (write_full_block x fuel block rs s ≡ (ok tt, s'))
        × IsWritten x s s'
            (record block { transactions = txs })
            rs
            (parent_td + block.header.difficulty)
  unfolding write_full_block
  write_full_block-IsWritten fuel s block txs parent_td rs next =
      let (s', e, facts) =
        write_new_block-IsWritten (λ w. pure rs) fuel s block txs parent_td rs (λ t same. refl)
          next in
      (s', rw (above_test next.above, write_full_block) e, facts)
