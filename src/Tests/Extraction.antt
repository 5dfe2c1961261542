-- ===== src/Tests/Extraction.antt =====
-- Avail blocks with the blocks of a node in them, and the search through them.
use mathlib.Core.List.{append-nil}
use availproject_op_evm.Prelude.{
  ℕ, ◌≡◌, refl, subst, inl, inr, leb, length, ◌==◌, if◌then◌else◌, Option, none, some, List, [],
  ◌∷◌, ok, err, arith,
}
use availproject_op_evm.Prelude.Bytes.{Bytes}
use availproject_op_evm.Chain.Types.{Block}
use availproject_op_evm.Avail.Blob.{Compact, CompactLaws, encode, decode}
use availproject_op_evm.Avail.Extract.{
  CallIndex, Extrinsic, AvailBlock, not_a_block, Codec, CodecLaws, prepare_extrinsic_for_send,
  blob_of, collect_blocks, or_none_found, block_from_avail,
}
use availproject_op_evm.Avail.Extract.InOrder.{HasBadBlob, block_from_avail-bad}
use availproject_op_evm.Avail.Search.{Client, get_next_avail_block_number}
use availproject_op_evm.Avail.Search.Walk.{get_next_avail_block_number-latest}
use availproject_op_evm.Tests.Serial.{block}

-- A compact integer is one byte here, and a block is the number of its header.
abbrev pub one_byte : Bytes → Option (ℕ × Bytes)
one_byte [] = none
one_byte (n ∷ bs) = some (n, bs)

abbrev pub compact : Compact
compact = record { encode_uint = λ n. n ∷ []; decode_uint = one_byte }

pub compact-laws : CompactLaws compact
compact-laws = record { decode-encode = λ n rest. refl }

abbrev pub numbered : ℕ → Block
numbered n = record {
  header = record {
    hash = n;
    parent_hash = 0;
    sha3_uncles = 0;
    miner = [];
    state_root = 0;
    tx_root = 0;
    receipts_root = 0;
    logs_bloom = [];
    difficulty = 0;
    number = n;
    gas_limit = 0;
    gas_used = 0;
    timestamp = 0;
    base_fee = 0;
    extra_data = [];
  };
  transactions = [];
  uncles = [];
}

abbrev pub codec : Codec
codec = record {
  compact = compact;
  marshal_block = block.put;
  unmarshal_block = λ bs. elim (block.get bs) [ none ↦ none | some (b, rest) ↦ some b ];
  encode_args = λ bs. 0 ∷ bs;
  decode_args = λ bs. elim bs [ [] ↦ none | x ∷ xs ↦ some xs ];
}

unmarshal-marshal_lem : (b : Block) → codec.unmarshal_block (codec.marshal_block b) ≡ some b
unmarshal-marshal_lem b =
    let read : block.get (block.put b) ≡ some (b, []) =
      subst (λ bs. block.get bs ≡ some (b, [])) (append-nil (block.put b)) (block.get-put b []) in
    rw read refl

pub codec-laws : CodecLaws codec
codec-laws = record { unmarshal-marshal = unmarshal-marshal_lem; decode-encode_args = λ bs. refl }

abbrev pub submit : CallIndex
submit = record { section_index = 29; method_index = 1 }

abbrev pub extrinsic_of : Block → Extrinsic
extrinsic_of b = record {
  app_id = 5;
  call_index = submit;
  args = 0 ∷ 170 ∷ length (block.put b) ∷ block.put b;
}

abbrev pub foreign_one : Extrinsic
foreign_one = record { app_id = 6; call_index = submit; args = [] }

abbrev pub broken : Extrinsic
broken = record { app_id = 5; call_index = submit; args = 0 ∷ 170 ∷ 0 ∷ [] }

abbrev pub avail_of : ℕ → List Extrinsic → AvailBlock
avail_of n es = record { number = n; extrinsics = es }

pub prepared :
    (b : Block) → b ≡ numbered 3 → prepare_extrinsic_for_send codec 5 submit b ≡ ok (extrinsic_of b)
unfolding prepare_extrinsic_for_send encode
prepared b e = rw e refl

pub has_bad : HasBadBlob codec 5 submit (extrinsic_of (numbered 3) ∷ broken ∷ [])
unfolding blob_of decode
has_bad = inr (inl (refl, (record { magic = 170; data_bytes = [] }, refl, refl)))

block_from_avail-bad_example :
    block_from_avail codec 5 submit (avail_of 8 (extrinsic_of (numbered 3) ∷ broken ∷ []))
    ≡ err not_a_block
block_from_avail-bad_example =
    block_from_avail-bad codec 5 submit (avail_of 8 (extrinsic_of (numbered 3) ∷ broken ∷ []))
      has_bad

-- Block 3 was sent in Avail block 7, and nothing after it.
abbrev history : ℕ → AvailBlock
history n = avail_of n (if n == 7 then extrinsic_of (numbered 3) ∷ [] else [])

abbrev client : Client
client = record { latest = some 9; get_block = λ n. if leb n 9 then some (history n) else none }

in_seven : block_from_avail codec 5 submit (history 7) ≡ ok (numbered 3 ∷ [])
unfolding block_from_avail collect_blocks or_none_found blob_of decode
in_seven = refl

-- The same block in the latest Avail block.
abbrev young_client : Client
young_client = record {
  latest = some 7;
  get_block = λ n. if leb n 7 then some (history n) else none;
}

get_next_avail_block_number-latest_example :
    get_next_avail_block_number codec 5 (some submit) young_client 4 3 ≡ ok 0
get_next_avail_block_number-latest_example =
    get_next_avail_block_number-latest codec 5 submit young_client 3 3 (history 7) (numbered 3 ∷ [])
      (omega arith) (omega arith) refl refl refl in_seven (inl refl)
