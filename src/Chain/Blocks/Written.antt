-- ===== src/Chain/Blocks/Written.antt =====
-- A block that extends the head is read back after it was written.
use availproject_op_evm.Prelude.{
  ℕ, ◌+◌, ◌≡◌, ◌⊎◌, refl, sym, ◌∙◌, ap, true, false, none, some, List, [], ◌∷◌, map, Outcome, ok,
  err, panic, arith, ◌==◌, ==_iff, ==_refl, if◌then◌else◌, elem, Bool-cases, inl, inr, Option-cases,
  ok-injective,
}
use availproject_op_evm.Chain.Types.{Hash, Address, Header, Transaction, Block}
use availproject_op_evm.Chain.Monad.{◌>>◌, pure, modify, >>=-ok}
use availproject_op_evm.Chain.Store.{StorageLaws, update}
use availproject_op_evm.Chain.Archive.{ArchiveLaws, IsReliable, Body}
use availproject_op_evm.Chain.Writes.{Chain, new_event, write, write_header_impl}
use availproject_op_evm.Chain.Writes.Reads.{HeadersAgree, DifficultiesAgree, write-ok}
use availproject_op_evm.Chain.Writes.Head.{on_top, write_header_impl-on_top}
use availproject_op_evm.Chain.Blocks.{
  Setting, has_sender, prepend, recover_from_fields_in_block, recover_from_fields_in_transactions,
  write_tx_lookups, write_body, write_body_and_header,
}

module _ (x : Setting) where
  open x use {env, execution, archive, sender}
  open env use {storage}

  abbrev pub TransactionLaws : Type 0
  TransactionLaws = ArchiveLaws storage execution.Receipt archive

  prepend-eq-ok :
      (tx : Transaction) (r : Outcome _ (List Transaction)) {done : List Transaction}
      → prepend x tx r ≡ ok done
      → (rest : List Transaction) × (r ≡ ok rest) × (done ≡ tx ∷ rest)
  prepend-eq-ok tx panic e = cc
  prepend-eq-ok tx (err f) e = cc
  prepend-eq-ok tx (ok rest) e = (rest, refl, cc)

  -- A transaction that already has the sender that would be recovered.
  abbrev IsSettled : Transaction → Type 0
  IsSettled tx =
      (has_sender tx ≡ true) ⊎ ((from : Address) × (sender tx ≡ some from) × (tx.from ≡ from))

  IsSettled-recovered :
      (tx : Transaction) (from : Address)
      → has_sender tx ≡ false
      → sender tx ≡ some from
      → IsSettled (record tx { from = from })
  IsSettled-recovered tx from missing signed = elim (Bool-cases (from == 0)) [
    | inr other ↦ inl (ground arith)
    | inl zero_from ↦
        let same : record tx { from = from } ≡ tx =
          ground (arith, ==_iff from 0, ==_iff tx.from 0) in
        inr (from, ap sender same ∙ signed, refl)
  ]

  recovered-cons :
      (tx : Transaction) (done : List Transaction)
      → IsSettled tx
      → (recover_from_fields_in_transactions x done).0 ≡ done
      → (recover_from_fields_in_transactions x (tx ∷ done)).0 ≡ tx ∷ done
  unfolding recover_from_fields_in_transactions
  recovered-cons tx done (inl settled) stays = ground arith
  recovered-cons tx done (inr (from, signed, same)) stays = ground arith

  -- Transactions whose senders were recovered keep them when they are read back.
  pub recovered_stays :
      (txs done : List Transaction)
      → recover_from_fields_in_block x txs ≡ ok done
      → (recover_from_fields_in_transactions x done).0 ≡ done
  unfolding recover_from_fields_in_block
  recovered_stays [] done e =
      rw (sym (ok-injective e)) (unfold recover_from_fields_in_transactions in refl)
  recovered_stays (tx ∷ txs) done e = elim (Bool-cases (has_sender tx)) [
    | inl known ↦
        let (rest, e', listed) =
          prepend-eq-ok tx (recover_from_fields_in_block x txs) (rw known at e) in
        rw listed (recovered-cons tx rest (inl known) (recovered_stays txs rest e'))
    | inr missing ↦ elim (Option-cases (sender tx)) [
      | inl unsigned ↦ absurd (ground (arith, e, missing, unsigned))
      | inr (from, signed) ↦
          let (rest, e', listed) =
            prepend-eq-ok (record tx { from = from }) (recover_from_fields_in_block x txs)
              {done = done} (ground arith) in
          rw listed (
            recovered-cons (record tx { from = from }) rest
              (IsSettled-recovered tx from missing signed) (recovered_stays txs rest e'))
    ]
  ]

  pub write_tx_lookups-ok :
      (laws : ArchiveLaws storage execution.Receipt archive)
      (reliable : IsReliable storage execution.Receipt archive) (block : Hash)
      (txs : List Transaction) (c : Chain env)
      → (d : _) × (write_tx_lookups x block txs c ≡ (ok tt, record c { db = d }))
        × (storage.view d ≡ storage.view c.db)
        × ((archive.contents d).body ≡ (archive.contents c.db).body)
        × ((archive.contents d).receipts ≡ (archive.contents c.db).receipts)
        × ((k : Hash)
            → (archive.contents d).tx_lookup k ≡ (
                if elem k (map (λ (tx : Transaction). tx.hash) txs)
                then some block
                else (archive.contents c.db).tx_lookup k))
  unfolding write_tx_lookups elem
  write_tx_lookups-ok laws reliable block [] c = (c.db, refl, refl, refl, refl, λ k. refl)
  write_tx_lookups-ok laws reliable block (tx ∷ txs) c =
      let (d, taken) = reliable.takes_tx_lookup tx.hash block c.db in
      let (same, law) = laws.tx_lookup_law tx.hash block c.db d taken in
      let (d', e, view, body, receipts, lookups) =
        write_tx_lookups-ok laws reliable block txs (record c { db = d }) in
      (
        d',
        >>=-ok (write env (archive.write_tx_lookup tx.hash block))
              (λ u. write_tx_lookups x block txs)
              (write-ok env (archive.write_tx_lookup tx.hash block) c taken)
            ∙ e,
        view ∙ same,
        rw body (rw law refl),
        rw receipts (rw law refl),
        λ k. ground (arith, lookups k, law, ==_iff k tx.hash, ==_iff tx.hash k),
      )

  -- The body of a block whose senders can be recovered, on a database that takes it.
  pub write_body-ok :
      (laws : ArchiveLaws storage execution.Receipt archive)
      (reliable : IsReliable storage execution.Receipt archive) (block : Block)
      (txs : List Transaction) (c : Chain env)
      → recover_from_fields_in_block x block.transactions ≡ ok txs
      → (d : _) × (write_body x block c
          ≡ (ok (record block { transactions = txs }), record c { db = d }))
        × (storage.view d ≡ storage.view c.db)
        × ((archive.contents d).body block.header.hash
            ≡ some (record { transactions = txs; uncles = block.uncles }))
        × ((archive.contents d).receipts ≡ (archive.contents c.db).receipts)
        × ((k : Hash)
            → elem k (map (λ (tx : Transaction). tx.hash) txs) ≡ true
            → (archive.contents d).tx_lookup k ≡ some block.header.hash)
  unfolding write_body
  write_body-ok laws reliable block txs c recovered =
      let body : Body = record { transactions = txs; uncles = block.uncles } in
      let (d, taken) = reliable.takes_body block.header.hash body c.db in
      let (same, law) = laws.body_law block.header.hash body c.db d taken in
      let (d', e, view, bodies, receipts, lookups) =
        write_tx_lookups-ok laws reliable block.header.hash txs (record c { db = d }) in
      (
        d',
        rw recovered (
            >>=-ok (write env (archive.write_body block.header.hash body))
              (λ u.
                write_tx_lookups x block.header.hash txs
                >> pure (record block { transactions = txs }))
              (write-ok env (archive.write_body block.header.hash body) c taken)
            ∙ >>=-ok (write_tx_lookups x block.header.hash txs)
                (λ u. pure (record block { transactions = txs })) e),
        view ∙ same,
        rw bodies (rw law (ground (arith, ==_refl block.header.hash))),
        rw receipts (rw law refl),
        λ k listed. lookups k ∙ rw listed refl,
      )

  -- A header that is new in the database leaves the headers cache in agreement.
  pub HeadersAgree-update :
      (c c' : Chain env) (h : Header)
      → c'.headers_cache ≡ c.headers_cache
      → (storage.view c'.db).header ≡ update (storage.view c.db).header h.hash h
      → (storage.view c.db).header h.hash ≡ none
      → HeadersAgree env c
      → HeadersAgree env c'
  HeadersAgree-update c c' h cache law fresh agree k found hit =
      ground (arith, law, fresh, agree k found, ==_iff h.hash k)

  -- The chain after the header and the body of a block on top of the head were written.
  pub record IsOnTop (c c' : Chain env) (block : Block) (td : ℕ) : Type 0 where
    pub head : c'.current_header ≡ block.header
    pub event : c'.event ≡ record new_event { new_chain = block.header ∷ []; difficulty = some td }
    pub quiet : c'.stream ≡ c.stream
    pub stored :
        (storage.view c'.db).header
        ≡ update (storage.view c.db).header block.header.hash block.header
    pub named : (storage.view c'.db).canonical block.header.number ≡ some block.header.hash
    pub cache : c'.headers_cache ≡ c.headers_cache
    pub body :
        (archive.contents c'.db).body block.header.hash
        ≡ some (record { transactions = block.transactions; uncles = block.uncles })
    pub receipts : (archive.contents c'.db).receipts ≡ (archive.contents c.db).receipts
    pub lookups :
        (k : Hash)
        → elem k (map (λ (tx : Transaction). tx.hash) block.transactions) ≡ true
        → (archive.contents c'.db).tx_lookup k ≡ some block.header.hash

  pub write_body_and_header-IsOnTop :
      StorageLaws storage
      → (laws : ArchiveLaws storage execution.Receipt archive)
      → (reliable : IsReliable storage execution.Receipt archive)
      → (fuel : ℕ) (c : Chain env) (block : Block) (txs : List Transaction) (parent_td : ℕ)
      → recover_from_fields_in_block x block.transactions ≡ ok txs
      → DifficultiesAgree env c
      → block.header.parent_hash ≡ c.current_header.hash
      → (storage.view c.db).difficulty block.header.parent_hash ≡ some parent_td
      → (c' : Chain env) × (write_body_and_header x fuel block c
          ≡ (ok (record block { transactions = txs }), c'))
        × IsOnTop c c' (record block { transactions = txs }) (parent_td + block.header.difficulty)
  unfolding write_body_and_header
  write_body_and_header-IsOnTop slaws laws reliable fuel c block txs parent_td recovered agree
        on_head parent_stored =
      let written : Block = record block { transactions = txs } in
      let td : ℕ = parent_td + block.header.difficulty in
      let (d, e, view, body, receipts, lookups) =
        write_body-ok laws reliable block txs c recovered in
      let begun : Chain env = record c { db = d; event = new_event } in
      let (d', taken) = reliable.takes_canonical_header block.header td d in
      let law = slaws.canonical_header_law block.header td d d' taken in
      let kept = laws.canonical_header_contents block.header td d d' taken in
      let (cache, e') =
        write_header_impl-on_top env fuel begun block.header parent_td d'
          (λ k v hit. rw view (agree k v hit)) on_head (rw view parent_stored) taken in
      (
        on_top env (record begun { difficulty_cache = cache }) block.header td d',
        >>=-ok (write_body x block)
              (λ w.
                modify (λ t. record t { event = new_event })
                >> write_header_impl env fuel block.header
                >> pure w)
              e
            ∙ >>=-ok (write_header_impl env fuel block.header) (λ u. pure written) e',
        record {
          head = refl;
          event = refl;
          quiet = refl;
          stored = rw law (rw view refl);
          named = rw law (ground (arith, ==_refl block.header.number));
          cache = refl;
          body = rw kept body;
          receipts = rw kept receipts;
          lookups = λ k listed. rw kept (lookups k listed);
        },
      )
