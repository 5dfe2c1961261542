-- ===== src/Sequencer/Mining/Signed.antt =====
-- consensus/avail/sequencer.go and consensus/avail/validator: the block of a sequencer's turn passes
-- the nodes' header check exactly if it is sealed with the key of its miner.
use availproject_op_evm.Prelude.{
  ℕ, ◌≡◌, ◌↔◌, refl, sym, ap, subst, ◌∙◌, Bool, List, [], ◌∷◌, ok, >>=-eq-ok, or_fail, ok-injective,
  map_error, map_error-eq-ok,
}
use availproject_op_evm.Chain.Types.{Address, Header, Transaction, Block}
use availproject_op_evm.Extra.{
  ValidatorExtra, decode_extra_data_fields, get_validator_extra, assign_extra_validators,
}
use availproject_op_evm.Extra.Encoding.{Wire, WireLaws}
use availproject_op_evm.Extra.Validators.{get-put_validator_extra}
use availproject_op_evm.Seal.{Crypto, CryptoLaws, write_seal}
use availproject_op_evm.Validator.{verify_header}
use availproject_op_evm.Validator.Signer.{put_validator_extra-parts, verify_header-write_seal}
use availproject_op_evm.Build.{Executor, ExecutorLaws}
use availproject_op_evm.Sequencer.{write_transactions}
use availproject_op_evm.Sequencer.Mining.{
  no_gas_limit, no_state, extra_data, fill_out_of_fuel, TxPool, filler, mining_header, finish_block,
  mine,
}

module _ (w : Wire) (laws : WireLaws w) (c : Crypto) where
  abbrev extra_of : Address → ValidatorExtra
  extra_of addr = record { validators = addr ∷ []; seal = []; committed_seal = [] }

  -- Of a header without extra data, the validators that were assigned are read back, and the miner
  -- stays.
  assigned :
      (h h' : Header) (addr : Address)
      → h.extra_data ≡ []
      → assign_extra_validators w h (addr ∷ []) ≡ ok h'
      → (get_validator_extra w h' ≡ ok (extra_of addr)) × (h'.miner ≡ h.miner)
  unfolding assign_extra_validators decode_extra_data_fields
  assigned h h' addr bare e =
      let decoding : decode_extra_data_fields w h.extra_data ≡ ok [] =
        ap (decode_extra_data_fields w) bare in
      let (h'', putting, got) = get-put_validator_extra w laws h (extra_of addr) [] tt decoding in
      let same : h'' ≡ h' = ok-injective (sym putting ∙ e) in
      let (_, only) = put_validator_extra-parts w c h h' (extra_of addr) e in
      (subst (λ k. get_validator_extra w k ≡ ok (extra_of addr)) same got, ap (λ k. k.miner) only)

  module _ (crypto : CryptoLaws c) (x : Executor) (executes : ExecutorLaws x) (p : TxPool x) where
    mining_header-assigned :
        (parent h : Header) (addr : Address) (block_time : ℕ)
        → mining_header x p w c parent addr block_time ≡ ok h
        → (get_validator_extra w h ≡ ok (extra_of addr)) × (h.miner ≡ w.address_bytes addr)
    unfolding mining_header
    mining_header-assigned parent h addr block_time e =
        let (gas, _, rest) = >>=-eq-ok (or_fail (x.calculate_gas_limit _) no_gas_limit) _ e in
        assigned _ h addr refl (map_error-eq-ok extra_data _ rest)

    finish_block-verify_header :
        (key : c.PrivateKey) (h : Header) (txs : List Transaction) (t : x.Transition) (blk : Block)
        (addr : Address)
        → get_validator_extra w h ≡ ok (extra_of addr)
        → h.miner ≡ w.address_bytes addr
        → finish_block x p w c key h txs t ≡ ok blk
        → (verify_header w c blk.header ≡ ok tt) ↔ (c.address_of key ≡ addr)
    unfolding finish_block get_validator_extra
    finish_block-verify_header key h txs t blk addr got mined e =
        let run : Header = record h { state_root = x.commit t; gas_used = x.total_gas t } in
        let made = executes.build_block-header run txs (x.receipts t) in
        let (sealed, sealing, done) =
          >>=-eq-ok
            (map_error extra_data
              (write_seal w c key (x.build_block run txs (x.receipts t)).header))
            _ e in
        subst (λ b. (verify_header w c b.header ≡ ok tt) ↔ (c.address_of key ≡ addr))
          (ok-injective done)
          (verify_header-write_seal w c laws crypto key
            (x.build_block run txs (x.receipts t)).header sealed (extra_of addr) addr
            (x.header_hash sealed) (ap (get_validator_extra w) made ∙ got) refl
            (ap (λ k. k.miner) made ∙ mined) (map_error-eq-ok extra_data _ sealing))

    -- A block that a sequencer makes passes the header check of the validator exactly if the key that
    -- seals it is that of the sequencer's address, whatever the pool offers, whenever the chain is
    -- disabled, and whatever the fraud server adds.
    pub mine-verify_header :
        (fuel : ℕ) (disabled : ℕ → Bool) (is_begin : Transaction → Bool)
        (sabotage : List Transaction → List Transaction) (parent : Header) (addr : Address)
        (key : c.PrivateKey) (block_time : ℕ) (pool pool' : p.Pool) (blk : Block)
        → mine x p w c fuel disabled is_begin sabotage parent addr key block_time pool
          ≡ ok (blk, pool')
        → (verify_header w c blk.header ≡ ok tt) ↔ (c.address_of key ≡ addr)
    unfolding mine
    mine-verify_header fuel disabled is_begin sabotage parent addr key block_time pool pool' blk e =
        let (h, headed, r1) = >>=-eq-ok (mining_header x p w c parent addr block_time) _ e in
        let (t0, _, r2) =
          >>=-eq-ok (or_fail (x.begin_txn parent.state_root h addr) no_state) _ r1 in
        let ((txs, pool1, t), _, r3) =
          >>=-eq-ok
            (or_fail (write_transactions (filler x p) fuel disabled is_begin pool t0)
              fill_out_of_fuel)
            _ r2 in
        let (b, finished, done) = >>=-eq-ok (finish_block x p w c key h (sabotage txs) t) _ r3 in
        let (got, mined) = mining_header-assigned parent h addr block_time headed in
        subst (λ k. (verify_header w c k.header ≡ ok tt) ↔ (c.address_of key ≡ addr))
          (ap (λ q. q.0) (ok-injective done))
          (finish_block-verify_header key h (sabotage txs) t b addr got mined finished)
