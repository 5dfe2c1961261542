-- ===== src/Resolution/Ending.antt =====
-- consensus/avail/fraud.go: the block that slashes a node ends the dispute on the others, and the
-- search for the disputed transaction.
use availproject_op_evm.Prelude.{
  map_error-eq-ok, ◌≡◌, refl, ap, Bool, true, false, Option, some, [], Outcome, ok, err, panic,
  >>=-eq-ok, or_fail, ok-injective, ◌==◌, arith,
}
use availproject_op_evm.Prelude.Bytes.{bytes_eq}
use availproject_op_evm.Prelude.Dict.{lookup, insert}
use availproject_op_evm.Chain.Types.{Hash, Address, Header, Transaction, Block}
use availproject_op_evm.Extra.{
  key_end_dispute_resolution_of, target_in, get_extra_data_end_dispute_resolution_target,
}
use availproject_op_evm.Extra.Encoding.{Wire, WireLaws}
use availproject_op_evm.Seal.{Crypto}
use availproject_op_evm.Build
use availproject_op_evm.Build.{Executor, ExecutorLaws, Builder, build}
use availproject_op_evm.Build.Targets.{build-extra_data_target}
use availproject_op_evm.Fraud.{Fraud, is_dispute_resolution_ended}
use availproject_op_evm.Staking.Transactions.{Contract, slash_staker_tx}
use availproject_op_evm.Resolution.{
  Error, building, no_state, signing_failed, lift_call, Outside, written_by, sent_by, ship,
  reset_after, slash_block, produce_slash_block,
}

module _ (o : Outside) where
  -- A block that was shipped is the one that was built.
  ship-built :
      (r : Outcome Error Block) (v : o.World) (blk : Block)
      → (reset_after o (ship o r v)).0 ≡ ok blk
      → r ≡ ok blk
  unfolding ship
  ship-built (ok built) v blk e = ap ok (by_sending (o.send built v) e)
    where
      by_writing :
          (sent : Bool × o.World)
          → (reset_after o (written_by o built sent)).0 ≡ ok blk
          → built ≡ blk
      by_writing (false, u) h = absurd (cc h)
      by_writing (true, u) h = ok-injective h

      by_sending :
          (sent : Bool × o.World) → (reset_after o (sent_by o built sent)).0 ≡ ok blk → built ≡ blk
      by_sending (false, u) h = absurd (cc h)
      by_sending (true, u) h = by_writing (o.write_block built u) h
  ship-built (err x) v blk e = absurd (cc e)
  ship-built panic v blk e = absurd (cc e)

module _ (w : Wire) (laws : WireLaws w) where
  -- The target that is read of a stored hash is the hash, the zero hash included.
  target_in-end :
      (h : Hash)
      → (target_in w key_end_dispute_resolution_of
          (insert key_end_dispute_resolution_of (w.hash_bytes h) [])).0
        ≡ h
  unfolding target_in lookup insert bytes_eq
  target_in-end h = rw (laws.bytes_to_hash-hash_bytes h) (ground arith)

  ended_lem :
      (hash : Hash) (h : Header) (f : Fraud) (held : Block) (t : Hash × Bool)
      → get_extra_data_end_dispute_resolution_target w h ≡ ok t
      → t.0 ≡ hash
      → f.fraud_block ≡ some held
      → held.header.hash ≡ hash
      → is_dispute_resolution_ended w h f ≡ ok true
  unfolding is_dispute_resolution_ended
  ended_lem hash h f held (t, exists) read same holds named =
      let test : (held.header.hash == t) ≡ true = ground (arith, same, named) in
      rw (holds, read, is_dispute_resolution_ended, test) refl

  module _ (c : Crypto) (x : Executor) (executes : ExecutorLaws x) (s : Contract) where
    -- The block by which a node slashes another one ends the dispute: every node that holds the same
    -- fraud block, by its hash, finds that its dispute has ended when it sees the block, once it was
    -- built, sent and written.
    pub produce_slash_block-ends :
        (sign_tx : c.PrivateKey → Transaction → Option Transaction) (o : Outside) (head : Header)
        (node_addr : Address) (key : c.PrivateKey) (fraud_block : Block) (malicious_addr : Address)
        (v v' : o.World) (blk : Block)
        → produce_slash_block w c x s sign_tx o head node_addr key fraud_block malicious_addr v
          ≡ (ok blk, v')
        → (f : Fraud) (held : Block) → f.fraud_block ≡ some held
        → held.header.hash ≡ fraud_block.header.hash
        → is_dispute_resolution_ended w blk.header f ≡ ok true
    unfolding produce_slash_block slash_block get_extra_data_end_dispute_resolution_target bytes_eq
        Build.set_extra_data_field Build.add_transactions Build.sign_with Build.set_coinbase_address
        Build.from_parent_header
    produce_slash_block-ends sign_tx o head node_addr key fraud_block malicious_addr v v' blk e f
          held holds named =
        let built =
          ship-built o (slash_block w c x s sign_tx head node_addr key fraud_block malicious_addr) v
            blk (ap (λ r. r.0) e) in
        let (tx, _, r1) =
          >>=-eq-ok (lift_call (slash_staker_tx s node_addr malicious_addr 1000000)) _ built in
        let (t, _, r2) =
          >>=-eq-ok (or_fail (x.begin_txn head.state_root head node_addr) no_state) _ r1 in
        let (signed, _, last) = >>=-eq-ok (or_fail (sign_tx key _) signing_failed) _ r2 in
        let read =
          build-extra_data_target w laws c x executes _ blk (map_error-eq-ok building _ last)
            key_end_dispute_resolution_of refl in
        ended_lem fraud_block.header.hash blk.header f held _ read
          (target_in-end fraud_block.header.hash) holds named
