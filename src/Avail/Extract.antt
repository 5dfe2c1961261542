-- ===== src/Avail/Extract.antt =====
-- What a node sends to Avail, in pkg/avail/sender.go, and what it takes out of an Avail block, in
-- pkg/avail/block.go.
pub mod InOrder
use availproject_op_evm.Prelude.{
  ℕ, ◌%◌, ◌≡◌, Bool, ◌&&◌, Option, none, some, List, [], ◌∷◌, not, Outcome, ok, err, panic, ◌>>=◌,
  ◌==◌, if◌then◌else◌,
}
use availproject_op_evm.Prelude.Bytes.{Bytes}
use availproject_op_evm.Chain.Types.{Block, u64_mod}
use availproject_op_evm.Avail.Blob.{blob_magic, Blob, Compact, encode, decode}

-- `CallIndex`: a pallet and a call of it.
pub record CallIndex : Type 0 where
  pub section_index : ℕ
  pub method_index : ℕ

-- An extrinsic, by what the code reads of it.
pub record Extrinsic : Type 0 where
  pub app_id : ℕ
  pub call_index : CallIndex
  pub args : Bytes

pub record AvailBlock : Type 0 where
  pub number : ℕ
  pub extrinsics : List Extrinsic

pub data Error : Type 0 where
  no_extrinsic_found not_a_block not_a_blob : Error
  rpc_failed not_found search_out_of_fuel : Error

-- polygon-edge's encoding of blocks (`MarshalRLP` and `UnmarshalRLP`), and the SCALE codec: compact
-- integers, and byte strings as the argument of a call, for which `codec.Encode` writes the length
-- and `codec.Decode` reads it.
pub record Codec : Type 0 where
  pub compact : Compact
  pub marshal_block : Block → Bytes
  pub unmarshal_block : Bytes → Option Block
  pub encode_args : Bytes → Bytes
  pub decode_args : Bytes → Option Bytes

abbrev pub same_call : CallIndex → CallIndex → Bool
same_call a b = (a.section_index == b.section_index) && (a.method_index == b.method_index)

-- The end of `BlockFromAvail`.
unfoldable pub or_none_found : List Block → Outcome Error (List Block)
or_none_found [] = err no_extrinsic_found
or_none_found (b ∷ bs) = ok (b ∷ bs)

module _ (c : Codec) (app_id : ℕ) (call : CallIndex) where
  -- `prepareExtrinsicForSend`, without the signature: the blob is encoded into the call's argument.
  unfoldable pub prepare_extrinsic_for_send : Block → Outcome Error Extrinsic
  prepare_extrinsic_for_send blk =
      elim (encode c.compact (record { magic = blob_magic; data_bytes = c.marshal_block blk })) [
        | ok bs ↦ ok (record { app_id = app_id; call_index = call; args = c.encode_args bs })
        | err e ↦ err not_a_blob
        | panic ↦ panic
      ]

  -- The blob in an extrinsic's argument; an extrinsic without one is passed over.
  unfoldable pub blob_of : Extrinsic → Option Blob
  blob_of e = elim (c.decode_args e.args) [
    | none ↦ none
    | some bs ↦ elim (decode c.compact bs) [ ok (b, rest) ↦ some b | err x ↦ none | panic ↦ none ]
  ]

  -- `AppID.Int64()` keeps the low 64 bits.
  abbrev pub is_ours : Extrinsic → Bool
  is_ours e = ((e.app_id % u64_mod) == (app_id % u64_mod)) && same_call e.call_index call

  -- The loop of `BlockFromAvail`. Data that is no block ends it, with an error.
  unfoldable pub collect_blocks : List Extrinsic → Outcome Error (List Block)
  collect_blocks [] = ok []
  collect_blocks (e ∷ es) = if not (is_ours e) then collect_blocks es else elim (blob_of e) [
    | none ↦ collect_blocks es
    | some b ↦ elim (c.unmarshal_block b.data_bytes) [
      | none ↦ err not_a_block
      | some blk ↦ collect_blocks es >>= λ blks. ok (blk ∷ blks)
    ]
  ]

  -- `BlockFromAvail`.
  unfoldable pub block_from_avail : AvailBlock → Outcome Error (List Block)
  block_from_avail avail_blk = collect_blocks avail_blk.extrinsics >>= or_none_found

module _ (c : Codec) where
  -- A block is read back from its encoding, and an argument from its own.
  pub record CodecLaws : Type 0 where
    pub unmarshal-marshal : (b : Block) → c.unmarshal_block (c.marshal_block b) ≡ some b
    pub decode-encode_args : (bs : Bytes) → c.decode_args (c.encode_args bs) ≡ some bs
