-- ===== src/Watchtower/Accusation.antt =====
-- consensus/avail/watchtower and consensus/avail/fraud.go: how the nodes take the accusation that a
-- watchtower builds.
use availproject_op_evm.Prelude.{
  map_error-eq-ok, ◌≡◌, ◌≢◌, ◌↔◌, refl, sym, ap, ◌∙◌, true, false, Option, none, some, List, [],
  ◌∷◌, Outcome, ok, err, panic, >>=-eq-ok, or_fail, ok-injective, ◌==◌, arith,
}
use availproject_op_evm.Prelude.Bytes.{Bytes, bytes_eq}
use availproject_op_evm.Prelude.Dict.{lookup, insert}
use availproject_op_evm.Chain.Types.{Hash, Transaction, Block}
use availproject_op_evm.Extra.{
  key_fraud_proof_of, key_begin_dispute_resolution_of, target_in, get_extra_data_fraud_proof_target,
}
use availproject_op_evm.Extra.Encoding.{Wire, WireLaws}
use availproject_op_evm.Seal.{Crypto, CryptoLaws}
use availproject_op_evm.Build
use availproject_op_evm.Build.{
  Executor, ExecutorLaws, Builder, from_parent_header, from_parent_hash, build,
}
use availproject_op_evm.Build.Targets.{build-extra_data_target}
use availproject_op_evm.Build.Sealed.{build-verify_header}
use availproject_op_evm.Validator.{verify_header}
use availproject_op_evm.Fraud
use availproject_op_evm.Fraud.{
  Fraud, chain_processing_disabled, set_block, check_and_set_fraud_block, judge, check_and_slash,
  is_ready_to_slash,
}
use availproject_op_evm.Staking.Transactions.{Contract}
use availproject_op_evm.Watchtower.{
  Error, building, Services, Tower, lift_build, prepare_fraudproof, accusing_builder, offer, accuse,
  sign_first, construct_fraudproof_txs, no_state, pool_refused, construct_fraudproof,
}

-- A block as the chain returns it if it is not wanted in full.
abbrev pub without_body : Block → Block
without_body blk = record blk { transactions = []; uncles = [] }

set_block-ready :
    (blk : Block) (f : Fraud)
    → f.chain_process_status ≡ chain_processing_disabled
    → is_ready_to_slash (set_block (some blk) f) ≡ true
unfolding is_ready_to_slash
set_block-ready blk f stopped = rw stopped refl

module _ (w : Wire) (c : Crypto) (x : Executor) (s : Contract) (services : Services c) where
  -- A fresh builder has no extra fields.
  from_parent_hash-extra_fields :
      (hash : Hash) (b : Builder w c x) → from_parent_hash w c x hash ≡ ok b → b.extra_fields ≡ []
  unfolding from_parent_hash from_parent_header
  from_parent_hash-extra_fields hash b e =
      let (h, _, made) = >>=-eq-ok (or_fail (x.get_header_by_hash hash) _) _ e in
      ap (λ k. k.extra_fields) (sym (ok-injective made))

  sign_first-builder :
      (tower : Tower w c x s services) (t : x.Transition) (b b' : Builder w c x)
      (txs txs' : List Transaction) (signed : Transaction)
      → sign_first w c x s services tower t b txs ≡ ok (b', txs', signed)
      → b' ≡ b
  sign_first-builder tower t b b' [] txs' signed e = absurd (cc e)
  sign_first-builder tower t b b' (tx ∷ txs) txs' signed e =
      let (_, _, made) = >>=-eq-ok (or_fail (services.sign_tx tower.sign_key _) _) _ e in
      ap (λ p. p.0) (sym (ok-injective made))

  prepare_fraudproof-extra_fields :
      (tower : Tower w c x s services) (malicious : Block) (b : Builder w c x)
      (txs : List Transaction) (signed : Transaction)
      → prepare_fraudproof w c x s services tower malicious ≡ ok (b, txs, signed)
      → b.extra_fields ≡ []
  unfolding prepare_fraudproof
  prepare_fraudproof-extra_fields tower malicious b txs signed e =
      let (fresh, from_parent, r1) =
        >>=-eq-ok (lift_build (from_parent_hash w c x malicious.header.parent_hash)) _ e in
      let (made, _, r2) =
        >>=-eq-ok (construct_fraudproof_txs w c x s services tower.account malicious) _ r1 in
      let (parent, _, r3) =
        >>=-eq-ok
          (elim (x.get_header_by_hash malicious.header.parent_hash) [
            | none ↦ panic
            | some h ↦ ok h
          ])
          _ r2 in
      let (t, _, last) =
        >>=-eq-ok (or_fail (x.begin_txn parent.state_root parent tower.account) no_state) _ r3 in
      ap (λ k. k.extra_fields) (sign_first-builder tower t fresh b made txs signed last)
      ∙ from_parent_hash-extra_fields malicious.header.parent_hash fresh
          (map_error-eq-ok building _ from_parent)

  accuse-builds :
      (tower : Tower w c x s services) (malicious blk : Block) (pool pool' : Option services.Pool)
      (b : Builder w c x) (txs : List Transaction) (signed : Transaction)
      → accuse w c x s services tower malicious pool (b, txs, signed) ≡ (ok blk, pool')
      → build w c x (accusing_builder w c x s services tower malicious b txs signed) ≡ ok blk
  unfolding accuse
  accuse-builds tower malicious blk pool pool' b txs signed e =
      by_offer (offer w c x s services signed pool) e
    where
      by_offer :
          (o : Option (Option services.Pool))
          → ◌≡◌ {A = Outcome Error Block × Option services.Pool}
              (elim o [
                | none ↦ (err pool_refused, pool)
                | some after ↦ (
                  lift_build (
                      build w c x (accusing_builder w c x s services tower malicious b txs signed)),
                  after,
                )
              ])
              (ok blk, pool')
          → build w c x (accusing_builder w c x s services tower malicious b txs signed) ≡ ok blk
      by_offer none h = absurd (cc (ap (λ p. p.0) h))
      by_offer (some after) h = map_error-eq-ok building _ (ap (λ p. p.0) h)

  -- What a successful `ConstructFraudproof` did.
  construct_fraudproof-parts :
      (tower : Tower w c x s services) (malicious blk : Block) (pool pool' : Option services.Pool)
      → construct_fraudproof w c x s services tower malicious pool ≡ (ok blk, pool')
      → (b : Builder w c x) × (txs : List Transaction) × (signed : Transaction) × (b.extra_fields
          ≡ [])
        × (build w c x (accusing_builder w c x s services tower malicious b txs signed) ≡ ok blk)
  unfolding construct_fraudproof
  construct_fraudproof-parts tower malicious blk pool pool' e =
      by_preparation (prepare_fraudproof w c x s services tower malicious) refl e
    where
      by_preparation :
          (r : Outcome Error (Builder w c x × List Transaction × Transaction))
          → prepare_fraudproof w c x s services tower malicious ≡ r
          → elim r [
            | ok prepared ↦ accuse w c x s services tower malicious pool prepared
            | err e ↦ (err e, pool)
            | panic ↦ (panic, pool)
          ]
            ≡ (ok blk, pool')
          → (b : Builder w c x) × (txs : List Transaction) × (signed : Transaction)
            × (b.extra_fields ≡ [])
            × (build w c x (accusing_builder w c x s services tower malicious b txs signed)
                ≡ ok blk)
      by_preparation (ok (b, txs, signed)) prepared h = (
        b,
        txs,
        signed,
        prepare_fraudproof-extra_fields tower malicious b txs signed prepared,
        accuse-builds tower malicious blk pool pool' b txs signed h,
      )
      by_preparation (err e) prepared h = absurd (cc (ap (λ p. p.0) h))
      by_preparation panic prepared h = absurd (cc (ap (λ p. p.0) h))

  module _ (laws : WireLaws w) (executes : ExecutorLaws x) where
    accused_in :
        (h : Hash) (begin_tx : Bytes)
        → h ≢ 0
        → target_in w key_fraud_proof_of (
            insert key_begin_dispute_resolution_of begin_tx
              (insert key_fraud_proof_of (w.hash_bytes h) []))
          ≡ (h, true)
    unfolding target_in lookup insert bytes_eq
    accused_in h begin_tx nonzero =
        let test : (h == 0) ≡ false = ground (arith, nonzero) in
        rw (laws.bytes_to_hash-hash_bytes h, test) refl

    -- The block that a watchtower builds against a malicious one whose hash is not zero names that
    -- hash as the target of its fraud proof.
    pub construct_fraudproof-target :
        (tower : Tower w c x s services) (malicious blk : Block) (pool pool' : Option services.Pool)
        → construct_fraudproof w c x s services tower malicious pool ≡ (ok blk, pool')
        → malicious.header.hash ≢ 0
        → get_extra_data_fraud_proof_target w blk.header ≡ ok (malicious.header.hash, true)
    unfolding get_extra_data_fraud_proof_target Build.set_coinbase_address Build.set_gas_limit
        Build.set_extra_data_field Build.add_transactions Build.sign_with bytes_eq
    construct_fraudproof-target tower malicious blk pool pool' e nonzero =
        let (b, txs, signed, bare, built) =
          construct_fraudproof-parts tower malicious blk pool pool' e in
        build-extra_data_target w laws c x executes
          (accusing_builder w c x s services tower malicious b txs signed) blk built
          key_fraud_proof_of refl
        ∙ ap
            (λ m. ok (
              target_in w key_fraud_proof_of (
                insert key_begin_dispute_resolution_of (w.hash_bytes signed.hash)
                  (insert key_fraud_proof_of (w.hash_bytes malicious.header.hash) m))))
            bare
        ∙ ap ok (accused_in malicious.header.hash (w.hash_bytes signed.hash) nonzero)

    taken :
        (blk : Block) (others : List Block) (f : Fraud) (hash : Hash)
        → get_extra_data_fraud_proof_target w blk.header ≡ ok (hash, true)
        → check_and_set_fraud_block w (blk ∷ others) f ≡ (ok true, set_block (some blk) f)
    unfolding check_and_set_fraud_block
    taken blk others f hash target = rw (target, check_and_set_fraud_block) refl

    judged :
        (node : Fraud.Services) (blk malicious : Block) (f : Fraud)
        → is_ready_to_slash (set_block (some blk) f) ≡ true
        → get_extra_data_fraud_proof_target w blk.header ≡ ok (malicious.header.hash, true)
        → node.get_block_by_hash malicious.header.hash false ≡ some (without_body malicious)
        → check_and_slash w node (set_block (some blk) f)
          ≡ judge node blk (without_body malicious) (set_block (some blk) f)
    unfolding check_and_slash
    judged node blk malicious f ready target found = rw (ready, target, found) refl

    -- An accusation reaches its judgement: a node whose chain is stopped, and whose chain returns the
    -- malicious block without its body under its hash, which is not zero, takes the watchtower's block
    -- from the blocks of an Avail block that it heads, whatever dispute it held before, and then judges
    -- with it the malicious block, of which it has the header and no transactions.
    pub construct_fraudproof-judged :
        (tower : Tower w c x s services) (malicious blk : Block) (pool pool' : Option services.Pool)
        → construct_fraudproof w c x s services tower malicious pool ≡ (ok blk, pool')
        → malicious.header.hash ≢ 0
        → (node : Fraud.Services) (f : Fraud) (others : List Block)
        → f.chain_process_status ≡ chain_processing_disabled
        → node.get_block_by_hash malicious.header.hash false ≡ some (without_body malicious)
        → check_and_slash w node (check_and_set_fraud_block w (blk ∷ others) f).1
          ≡ judge node blk (without_body malicious) (set_block (some blk) f)
    construct_fraudproof-judged tower malicious blk pool pool' e nonzero node f others stopped
          found =
        let target = construct_fraudproof-target tower malicious blk pool pool' e nonzero in
        ap (λ r. check_and_slash w node r.1) (taken blk others f malicious.header.hash target)
        ∙ judged node blk malicious f (set_block-ready blk f stopped) target found

    -- The accusation passes the nodes' header check exactly if the watchtower signs with the key of
    -- its own account.
    pub construct_fraudproof-verify_header :
        CryptoLaws c
        → (tower : Tower w c x s services) (malicious blk : Block)
          (pool pool' : Option services.Pool)
        → construct_fraudproof w c x s services tower malicious pool ≡ (ok blk, pool')
        → (verify_header w c blk.header ≡ ok tt) ↔ (c.address_of tower.sign_key ≡ tower.account)
    unfolding Build.set_coinbase_address Build.set_gas_limit Build.set_extra_data_field
        Build.add_transactions Build.sign_with
    construct_fraudproof-verify_header crypto tower malicious blk pool pool' e =
        let (b, txs, signed, _, built) =
          construct_fraudproof-parts tower malicious blk pool pool' e in
        build-verify_header w c x laws crypto executes
          (accusing_builder w c x s services tower malicious b txs signed) tower.sign_key blk refl
          built
