-- ===== src/Build/OnParent.antt =====
-- pkg/block/builder.go and consensus/avail/validator: the block that `Build` makes on a parent, and
-- the nodes' checks of a block against its parent.
use availproject_op_evm.Prelude.{◌<◌, ◌≡◌, ◌≢◌, ap, ◌∙◌, >>=-eq-ok, Bool, Option, some, Outcome, ok}
use availproject_op_evm.Prelude.Bytes.{Bytes}
use availproject_op_evm.Chain.Types
use availproject_op_evm.Chain.Types.{Hash, u64_mod, Header, Transaction, Block}
use availproject_op_evm.Chain.Gas.{verify_gas_limit}
use availproject_op_evm.Chain.Verify.{verify_block_parent, validator_verify_block_parent}
use availproject_op_evm.Chain.Verify.Parent.{verify_block_parent_next}
use availproject_op_evm.Extra.Encoding.{Wire}
use availproject_op_evm.Extra.{get_validator_extra}
use availproject_op_evm.Seal.{Crypto, sign_seal_impl, write_seal}
use availproject_op_evm.Validator.Signer.{put_validator_extra-parts}
use availproject_op_evm.Build.{Executor, ExecutorLaws, Builder, fresh_header, build}
use availproject_op_evm.Build.Sealed.{build-parts, seal_block-parts, executed_header}

module _ (w : Wire) (c : Crypto) where
  -- Sealing changes the extra data only.
  write_seal-only :
      (key : c.PrivateKey) (h h' : Header)
      → write_seal w c key h ≡ ok h'
      → (bs : Bytes) × (h' ≡ record h { extra_data = bs })
  unfolding write_seal
  write_seal-only key h h' e =
      let (s, _, r1) = >>=-eq-ok (sign_seal_impl w c key h) _ e in
      let (extra, _, put) = >>=-eq-ok (get_validator_extra w h) _ r1 in
      put_validator_extra-parts w c h h' (record extra { seal = s }) put

  module _ (x : Executor) where
    build-header :
        ExecutorLaws x
        → (b : Builder w c x) (blk : Block) → build w c x b ≡ ok blk
        → (blk.header.parent_hash ≡ b.header.parent_hash) × (blk.header.number ≡ b.header.number)
    build-header executes b blk e =
        let (key, limit, _, t, written, _, _, _, sealing) = build-parts w c x b blk e in
        let (put, h, putting, sealed, whole) = seal_block-parts w c x key _ blk sealing in
        let made =
          executes.build_block-header (executed_header w c x b limit t) written (x.receipts t) in
        let (_, only_put) = put_validator_extra-parts w c _ put _ putting in
        let (_, only_sealed) = write_seal-only key put h sealed in
        (
          ap (λ k. k.header.parent_hash) whole
              ∙ ap (λ k. k.parent_hash) only_sealed
              ∙ ap (λ k. k.parent_hash) only_put
              ∙ ap (λ k. k.parent_hash) made,
          ap (λ k. k.header.number) whole
              ∙ ap (λ k. k.number) only_sealed
              ∙ ap (λ k. k.number) only_put
              ∙ ap (λ k. k.number) made,
        )

    -- A node that has the parent, whose hash is not zero, finds nothing wrong with a block that was
    -- built on it (with the number, the parent hash and the other defaults of a fresh builder's
    -- header) but for the gas limit: both the full and the validator's check of the block against
    -- its parent come down to the check of the gas limit, whatever transactions the block has.
    pub build-verify_block_parent :
        ExecutorLaws x
        → (b : Builder w c x) (blk : Block) (parent : Header) → b.header ≡ fresh_header w c x parent
        → build w c x b ≡ ok blk
        → (read_header : Hash → Option Header) (is_dispute : Transaction → Bool)
          (staking_test : Transaction → Outcome Types.Error Bool)
        → read_header parent.hash ≡ some parent
        → parent.hash ≢ 0
        → parent.number < u64_mod
        → (verify_block_parent read_header is_dispute blk ≡ verify_gas_limit blk.header parent)
          × (validator_verify_block_parent read_header staking_test blk
              ≡ verify_gas_limit blk.header parent)
    build-verify_block_parent executes b blk parent fresh e read_header is_dispute staking_test
          found nonzero =
        let (own_parent, own_number) = build-header executes b blk e in
        verify_block_parent_next read_header is_dispute staking_test blk parent found nonzero
          (own_parent ∙ ap (λ h. h.parent_hash) fresh) (own_number ∙ ap (λ h. h.number) fresh)
