-- ===== src/Tests/Headers.antt =====
-- Headers: their extra data, their validators and their seal.
use availproject_op_evm.Prelude.{◌≡◌, false, refl, [], ◌∷◌, ok, err, panic, arith}
use availproject_op_evm.Prelude.Bytes.{Bytes, bytes_eq, bytes_eq_iff, bytes_leb}
use availproject_op_evm.Prelude.Sort.{sort}
use availproject_op_evm.Prelude.Dict.{Dict, lookup, insert, IsMap}
use availproject_op_evm.Chain.Types.{Header}
use availproject_op_evm.Extra.{
  ValidatorExtra, key_extra_validators, key_fraud_proof_of, encode_extra_data_fields,
  decode_extra_data_fields, marshal_rlp_with, unmarshal_rlp, put_validator_extra,
  get_validator_extra, decode_pairs, unmarshal_elems, all_of, empty_seals, full_seals, field_values,
  assign_extra_validators,
}
use availproject_op_evm.Extra.Fields.{decode-encode_extra_data_fields}
use availproject_op_evm.Extra.Validators.{HasFullSeals, get-put_validator_extra}
use availproject_op_evm.Seal.{
  calculate_header_hash, header_value, sign_seal_impl, write_seal, address_recover_from_header,
}
use availproject_op_evm.Seal.Recovery.{address_recover-write_seal}
use availproject_op_evm.Tests.Encodings.{
  plain_wire, plain_wire-laws, plain_crypto, plain_crypto-laws,
}

abbrev one_validator : ValidatorExtra
one_validator = record { validators = 5 ∷ []; seal = []; committed_seal = (3 ∷ []) ∷ [] }

abbrev two_fields : Dict Bytes
two_fields =
    (key_extra_validators, plain_wire.marshal (marshal_rlp_with plain_wire one_validator))
    ∷ (key_fraud_proof_of, 9 ∷ [])
    ∷ []

abbrev unsealed : Header
unsealed = record {
  hash = 11;
  parent_hash = 10;
  sha3_uncles = 0;
  miner = 5 ∷ [];
  state_root = 3;
  tx_root = 4;
  receipts_root = 6;
  logs_bloom = [];
  difficulty = 1;
  number = 7;
  gas_limit = 5000;
  gas_used = 21;
  timestamp = 100;
  base_fee = 0;
  extra_data = encode_extra_data_fields plain_wire two_fields;
}

got : get_validator_extra plain_wire unsealed ≡ ok one_validator
unfolding get_validator_extra decode_extra_data_fields decode_pairs unmarshal_rlp unmarshal_elems
    all_of marshal_rlp_with empty_seals full_seals encode_extra_data_fields field_values lookup
    insert sort bytes_eq bytes_leb
got = refl

abbrev sealed : Header
sealed = elim (write_seal plain_wire plain_crypto 2 unsealed) [
  | ok h ↦ h
  | err e ↦ unsealed
  | panic ↦ unsealed
]

sealing : write_seal plain_wire plain_crypto 2 unsealed ≡ ok sealed
unfolding get_validator_extra decode_extra_data_fields decode_pairs unmarshal_rlp unmarshal_elems
    all_of marshal_rlp_with empty_seals full_seals encode_extra_data_fields field_values lookup
    insert sort bytes_eq bytes_leb write_seal sign_seal_impl calculate_header_hash header_value
    assign_extra_validators put_validator_extra
sealing = refl

abbrev has_full_seals : HasFullSeals one_validator.committed_seal
has_full_seals = (refl, tt)

address_recover-write_seal_example :
    address_recover_from_header plain_wire plain_crypto sealed ≡ ok 2
address_recover-write_seal_example =
    address_recover-write_seal plain_wire plain_wire-laws plain_crypto plain_crypto-laws 2 unsealed
      sealed one_validator got has_full_seals sealing

decoding : decode_extra_data_fields plain_wire unsealed.extra_data ≡ ok two_fields
unfolding decode_extra_data_fields decode_pairs marshal_rlp_with empty_seals full_seals
    encode_extra_data_fields field_values lookup insert sort bytes_eq bytes_leb
decoding = refl

get-put_validator_extra_example :
    (h : Header) × (put_validator_extra plain_wire unsealed one_validator ≡ ok h)
    × (get_validator_extra plain_wire h ≡ ok one_validator)
get-put_validator_extra_example =
    get-put_validator_extra plain_wire plain_wire-laws unsealed one_validator two_fields
      has_full_seals decoding

abbrev empty_seal : ValidatorExtra
empty_seal = record one_validator { committed_seal = [] ∷ [] }

abbrev rewritten : Header
rewritten = elim (put_validator_extra plain_wire unsealed empty_seal) [
  | ok h ↦ h
  | err e ↦ unsealed
  | panic ↦ unsealed
]

rewriting : put_validator_extra plain_wire unsealed empty_seal ≡ ok rewritten
unfolding decode_extra_data_fields decode_pairs marshal_rlp_with empty_seals full_seals
    encode_extra_data_fields field_values lookup insert sort bytes_eq bytes_leb put_validator_extra
rewriting = refl

other_key : bytes_eq key_extra_validators key_fraud_proof_of ≡ false
unfolding bytes_eq
other_key = refl

decode-encode_extra_data_fields_example :
    (kv : Dict Bytes) × (decode_extra_data_fields plain_wire
        (encode_extra_data_fields plain_wire two_fields)
      ≡ ok kv)
    × IsMap kv
    × ((j : Bytes) → lookup j kv ≡ lookup j two_fields)
decode-encode_extra_data_fields_example =
    decode-encode_extra_data_fields plain_wire plain_wire-laws two_fields

abbrev one_way : Dict Bytes
one_way = (1 ∷ [], 9 ∷ []) ∷ (2 ∷ [], 8 ∷ []) ∷ []

abbrev other_way : Dict Bytes
other_way = (2 ∷ [], 8 ∷ []) ∷ (1 ∷ [], 9 ∷ []) ∷ []

one_way-IsMap : IsMap one_way
unfolding bytes_eq
one_way-IsMap = ground arith

other_way-IsMap : IsMap other_way
unfolding bytes_eq
other_way-IsMap = ground arith

ways_agree : (j : Bytes) → lookup j one_way ≡ lookup j other_way
unfolding lookup
ways_agree j = ground (arith, bytes_eq_iff (1 ∷ []) j, bytes_eq_iff (2 ∷ []) j)
