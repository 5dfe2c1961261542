-- ===== src/Build/Sealed.antt =====
-- pkg/block/builder.go and consensus/avail/validator: what `Build` seals passes the nodes' header
-- check exactly if the miner of the block holds the key.
use availproject_op_evm.Prelude.{
  map_error-eq-ok, ℕ, List, ◌≡◌, ◌↔◌, refl, sym, subst, ap, ◌∙◌, some, [], ◌∷◌, ok, >>=-eq-ok,
  or_fail, or_fail-eq-ok, ok-injective,
}
use availproject_op_evm.Prelude.Bytes.{Bytes}
use availproject_op_evm.Prelude.Dict.{Dict}
use availproject_op_evm.Chain.Types.{Address, Header, Block, Transaction}
use availproject_op_evm.Extra.{
  ValidatorExtra, decode_extra_data_fields, put_validator_extra, get_validator_extra,
}
use availproject_op_evm.Extra.Encoding.{Wire, WireLaws}
use availproject_op_evm.Extra.Validators.{get-put_validator_extra}
use availproject_op_evm.Extra.Fields.{decode-encode_extra_data_fields}
use availproject_op_evm.Seal.{Crypto, CryptoLaws, write_seal}
use availproject_op_evm.Validator.{verify_header}
use availproject_op_evm.Validator.Signer.{put_validator_extra-parts, verify_header-write_seal}
use availproject_op_evm.Build.{
  extra_data, Executor, ExecutorLaws, Builder, lift_extra, coinbase_of, gas_limit_of, write_all,
  prepared_header, seal_block, build, sign_key_missing, or_default, no_state,
}

module _ (w : Wire) (c : Crypto) (x : Executor) where
  -- The validator extra that `Build` puts into the header of a miner.
  abbrev own_extra : Header → ValidatorExtra
  own_extra h = record {
    validators = w.bytes_to_address h.miner ∷ [];
    seal = [];
    committed_seal = [];
  }

  pub seal_block-parts :
      (key : c.PrivateKey) (blk sealed : Block)
      → seal_block w c x key blk ≡ ok sealed
      → (put : Header) × (h : Header) × (put_validator_extra w blk.header (own_extra blk.header)
          ≡ ok put)
        × (write_seal w c key put ≡ ok h)
        × (sealed ≡ record blk { header = record h { hash = x.header_hash h } })
  unfolding seal_block
  seal_block-parts key blk sealed e =
      let (put, putting, rest) =
        >>=-eq-ok (lift_extra (put_validator_extra w blk.header (own_extra blk.header))) _ e in
      let (h, sealing, done) = >>=-eq-ok (lift_extra (write_seal w c key put)) _ rest in
      (
        put,
        h,
        map_error-eq-ok extra_data _ putting,
        map_error-eq-ok extra_data _ sealing,
        sym (ok-injective done),
      )

  seal_block-verify_header :
      WireLaws w
      → CryptoLaws c
      → (key : c.PrivateKey) (blk sealed : Block) (miner : Address) (kv : Dict Bytes)
      → decode_extra_data_fields w blk.header.extra_data ≡ ok kv
      → blk.header.miner ≡ w.address_bytes miner
      → seal_block w c x key blk ≡ ok sealed
      → (verify_header w c sealed.header ≡ ok tt) ↔ (c.address_of key ≡ miner)
  seal_block-verify_header laws crypto key blk sealed miner kv decoding mined e =
      let (put, h, putting, sealing, whole) = seal_block-parts key blk sealed e in
      let (put', putting', got) =
        get-put_validator_extra w laws blk.header (own_extra blk.header) kv tt decoding in
      let same : put' ≡ put = ok-injective (sym putting' ∙ putting) in
      let (_, only) = put_validator_extra-parts w c blk.header put (own_extra blk.header) putting in
      subst (λ s. (verify_header w c s.header ≡ ok tt) ↔ (c.address_of key ≡ miner)) (sym whole)
        (verify_header-write_seal w c laws crypto key put h (own_extra blk.header) miner
          (x.header_hash h)
          (subst (λ p. get_validator_extra w p ≡ ok (own_extra blk.header)) same got) refl
          (ap (λ p. p.miner) only ∙ mined) sealing)

  -- The header that `BuildBlock` gets after the transactions were run.
  abbrev pub executed_header : Builder w c x → ℕ → x.Transition → Header
  executed_header b limit t = record (prepared_header w c x b limit) {
    state_root = x.commit t;
    gas_used = x.total_gas t;
  }

  -- What a successful `Build` did.
  pub build-parts :
      (b : Builder w c x) (blk : Block)
      → build w c x b ≡ ok blk
      → (key : c.PrivateKey) × (limit : ℕ) × (t0 t : x.Transition) × (written : List Transaction)
        × (b.sign_key ≡ some key)
        × (gas_limit_of w c x b ≡ ok limit)
        × (write_all w c x b.transactions t0 ≡ ok (written, t))
        × (seal_block w c x key (x.build_block (executed_header b limit t) written (x.receipts t))
            ≡ ok blk)
  unfolding build
  build-parts b blk e =
      let (key, has_key, r1) = >>=-eq-ok (or_fail b.sign_key sign_key_missing) _ e in
      let (limit, limited, r2) = >>=-eq-ok (gas_limit_of w c x b) _ r1 in
      let (t0, _, r3) =
        >>=-eq-ok
          (or_fail
            (x.begin_txn (or_default w c x b.parent_root b.parent.state_root)
              (prepared_header w c x b limit) (coinbase_of w c x b))
            no_state)
          _ r2 in
      let ((written, t), wrote, done) = >>=-eq-ok (write_all w c x b.transactions t0) _ r3 in
      (key, limit, t0, t, written, or_fail-eq-ok _ _ has_key, limited, wrote, done)

  -- A block that a builder with a key builds passes the header check of the validator exactly if the
  -- key is that of the block's coinbase: the address that was set, or the parent's miner.
  pub build-verify_header :
      WireLaws w
      → CryptoLaws c
      → ExecutorLaws x
      → (b : Builder w c x) (key : c.PrivateKey) (blk : Block) → b.sign_key ≡ some key
      → build w c x b ≡ ok blk
      → (verify_header w c blk.header ≡ ok tt) ↔ (c.address_of key ≡ coinbase_of w c x b)
  build-verify_header laws crypto executes b key blk has_key e =
      let (key', limit, _, t, written, has_key', _, _, sealing) = build-parts b blk e in
      let same : key' ≡ key = cc in
      let made = executes.build_block-header (executed_header b limit t) written (x.receipts t) in
      let (kv, decoding, _, _) = decode-encode_extra_data_fields w laws b.extra_fields in
      subst (λ k. (verify_header w c blk.header ≡ ok tt) ↔ (c.address_of k ≡ coinbase_of w c x b))
        same
        (seal_block-verify_header laws crypto key'
          (x.build_block (executed_header b limit t) written (x.receipts t)) blk
          (coinbase_of w c x b) kv
          (ap (λ h. decode_extra_data_fields w h.extra_data) made ∙ decoding)
          (ap (λ h. h.miner) made) sealing)
