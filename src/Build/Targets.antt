-- ===== src/Build/Targets.antt =====
-- pkg/block/builder.go and extra.go: the fields that a builder was given are read back from the
-- block that it builds.
use availproject_op_evm.Prelude.{◌≡◌, refl, ap, ◌∙◌, false, ok, >>=-eq-ok}
use availproject_op_evm.Prelude.Bytes.{Bytes, bytes_eq}
use availproject_op_evm.Chain.Types.{Hash, Header, Block}
use availproject_op_evm.Extra.{
  ValidatorExtra, key_extra_validators, put_validator_extra, get_validator_extra, target_in,
  extra_data_target,
}
use availproject_op_evm.Extra.Encoding.{Wire, WireLaws}
use availproject_op_evm.Extra.Fields.{decode-encode_extra_data_fields}
use availproject_op_evm.Extra.Validators.{
  extra_data_target_lem, target_in-ext, extra_data_target-put_validator_extra,
}
use availproject_op_evm.Seal.{Crypto, sign_seal_impl, write_seal}
use availproject_op_evm.Build.{Executor, ExecutorLaws, Builder, build}
use availproject_op_evm.Build.Sealed.{build-parts, seal_block-parts, executed_header}

module _ (w : Wire) (laws : WireLaws w) (c : Crypto) where
  -- Sealing ends in a write of the validator extra.
  pub write_seal-puts :
      (key : c.PrivateKey) (h h' : Header)
      → write_seal w c key h ≡ ok h'
      → (extra : ValidatorExtra) × (put_validator_extra w h extra ≡ ok h')
  unfolding write_seal
  write_seal-puts key h h' e =
      let (s, _, r1) = >>=-eq-ok (sign_seal_impl w c key h) _ e in
      let (extra, _, put) = >>=-eq-ok (get_validator_extra w h) _ r1 in
      (record extra { seal = s }, put)

  extra_data_target-hash :
      (key : Bytes) (h : Header) (hash : Hash)
      → extra_data_target w key (record h { hash = hash }) ≡ extra_data_target w key h
  unfolding extra_data_target
  extra_data_target-hash key h hash = refl

  module _ (x : Executor) where
    pub build-extra_data_target :
        ExecutorLaws x
        → (b : Builder w c x) (blk : Block) → build w c x b ≡ ok blk
        → (key : Bytes) → bytes_eq key_extra_validators key ≡ false
        → extra_data_target w key blk.header ≡ ok (target_in w key b.extra_fields)
    build-extra_data_target executes b blk e key other =
        let (signer, limit, _, t, written, _, _, _, sealing) = build-parts w c x b blk e in
        let (put, h, putting, sealed, whole) = seal_block-parts w c x signer _ blk sealing in
        let made =
          executes.build_block-header (executed_header w c x b limit t) written (x.receipts t) in
        let (extra, resealing) = write_seal-puts signer put h sealed in
        let (kv, decoding, _, same) = decode-encode_extra_data_fields w laws b.extra_fields in
        ap (λ k. extra_data_target w key k.header) whole
        ∙ extra_data_target-hash key h (x.header_hash h)
        ∙ extra_data_target-put_validator_extra w laws put h extra key resealing other
        ∙ extra_data_target-put_validator_extra w laws _ put _ key putting other
        ∙ ap (extra_data_target w key) made
        ∙ extra_data_target_lem w laws key _ kv decoding
        ∙ ap ok (target_in-ext w laws key kv b.extra_fields (same key))
