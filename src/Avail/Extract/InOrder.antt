-- ===== src/Avail/Extract/InOrder.antt =====
-- What comes out of an Avail block, given what was put into it.
use availproject_op_evm.Prelude.{
  ℕ, ◌≡◌, ◌⊎◌, refl, true, false, none, some, List, [], ◌∷◌, ok, err, arith,
}
use availproject_op_evm.Prelude.Bytes.{Bytes}
use availproject_op_evm.Chain.Types.{Block}
use availproject_op_evm.Avail.Blob
use availproject_op_evm.Avail.Blob.{Blob}
use availproject_op_evm.Avail.Extract.{
  CallIndex, Extrinsic, AvailBlock, not_a_block, Codec, prepare_extrinsic_for_send, blob_of,
  is_ours, collect_blocks, block_from_avail,
}

module _ (c : Codec) (app_id : ℕ) (call : CallIndex) where
  -- The extrinsics of an Avail block, and the blocks that nodes sent in them: in between are those
  -- of other applications or calls, and those without a blob.
  pub data Carries : List Extrinsic → List Block → Type 0 where
    nothing : Carries [] []
    foreign :
        (e : Extrinsic) {es : List Extrinsic} {bs : List Block}
        → is_ours c app_id call e ≡ false
        → Carries es bs
        → Carries (e ∷ es) bs
    empty :
        (e : Extrinsic) {es : List Extrinsic} {bs : List Block}
        → blob_of c app_id call e ≡ none
        → Carries es bs
        → Carries (e ∷ es) bs
    sent :
        (b : Block) (e : Extrinsic) {es : List Extrinsic} {bs : List Block}
        → prepare_extrinsic_for_send c app_id call b ≡ ok e
        → Carries es bs
        → Carries (e ∷ es) (b ∷ bs)

  -- Some extrinsic of ours has a blob that is no block.
  abbrev pub HasBadBlob : List Extrinsic → Type 0
  HasBadBlob [] = ⊥
  HasBadBlob (e ∷ es) =
      ((is_ours c app_id call e ≡ true)
        × ((b : Blob) × (blob_of c app_id call e ≡ some b)
            × (c.unmarshal_block b.data_bytes ≡ none)))
      ⊎ HasBadBlob es

  collect_blocks-bad :
      (es : List Extrinsic) → HasBadBlob es → collect_blocks c app_id call es ≡ err not_a_block
  unfolding collect_blocks
  collect_blocks-bad [] h = absurd h
  collect_blocks-bad (e ∷ es) h = ground (arith, h, collect_blocks-bad es)

  -- If one extrinsic of the application has a blob that is no block, none of the Avail block's
  -- blocks is extracted, whatever the other extrinsics are.
  pub block_from_avail-bad :
      (avail_blk : AvailBlock)
      → HasBadBlob avail_blk.extrinsics
      → block_from_avail c app_id call avail_blk ≡ err not_a_block
  unfolding block_from_avail
  block_from_avail-bad avail_blk h = rw (collect_blocks-bad avail_blk.extrinsics h) refl
