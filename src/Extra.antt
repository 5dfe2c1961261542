-- ===== src/Extra.antt =====
-- pkg/block/extra.go: the extra data of a header, a map from names to byte strings under RLP.
pub mod Encoding
pub mod Fields
pub mod Validators
pub mod Overwrite
use availproject_op_evm.Prelude.{
  ℕ, Bool, true, false, Option, none, some, List, [], ◌∷◌, ◌++◌, map, Outcome, ok, err, panic,
  ◌>>=◌, or_fail, ◌==◌, if◌then◌else◌,
}
use availproject_op_evm.Prelude.Bytes.{Bytes, codes, bytes_order}
use availproject_op_evm.Prelude.Sort.{sort}
use availproject_op_evm.Prelude.Dict.{Dict, lookup, insert, keys}
use availproject_op_evm.Chain.Types.{Hash, Address, Header}
use Encoding.{Wire}

-- The names under which the node stores fields.
abbrev pub key_extra_validators : Bytes
key_extra_validators = codes "EXTRA_VALIDATORS"

abbrev pub key_fraud_proof_of : Bytes
key_fraud_proof_of = codes "FRAUD_PROOF_OF"

abbrev pub key_begin_dispute_resolution_of : Bytes
key_begin_dispute_resolution_of = codes "BEGIN_DISPUTE_RESOLUTION_OF"

abbrev pub key_end_dispute_resolution_of : Bytes
key_end_dispute_resolution_of = codes "END_DISPUTE_RESOLUTION_OF"

pub data Error : Type 0 where
  not_rlp not_a_list not_a_string no_validators too_few_elements signing_failed : Error

abbrev pub is_empty : Bytes → Bool
is_empty [] = true
is_empty (x ∷ xs) = false

-- `data[k]`: a missing key reads as the empty byte string.
abbrev pub value_at : Bytes → Dict Bytes → Bytes
value_at k data_fields = elim (lookup k data_fields) [ none ↦ [] | some v ↦ v ]

pub record ValidatorExtra : Type 0 where
  pub validators : List Address
  pub seal : Bytes
  pub committed_seal : List Bytes

module _ (w : Wire) where
  open w use {Value, new_array, new_bytes, marshal, parse, get_elems, get_bytes, get_address}

  -- The loop of `EncodeExtraDataFields` over the sorted keys.
  unfoldable pub field_values : List Bytes → Dict Bytes → List Value
  field_values [] fields = []
  field_values (k ∷ ks) fields =
      new_bytes k ∷ new_bytes (value_at k fields) ∷ field_values ks fields

  unfoldable pub encode_extra_data_fields : Dict Bytes → Bytes
  encode_extra_data_fields fields =
      marshal (new_array (field_values (sort bytes_order (keys fields)) fields))

  -- The loop of `DecodeExtraDataFields`. It reads two elements a round, so a list of odd length is
  -- read past its end.
  unfoldable pub decode_pairs : List Value → Dict Bytes → Outcome Error (Dict Bytes)
  decode_pairs [] kv = ok kv
  decode_pairs (k ∷ []) kv = or_fail (get_bytes k) not_a_string >>= λ _. panic
  decode_pairs (k ∷ v ∷ vs) kv = do
    key ← or_fail (get_bytes k) not_a_string
    value ← or_fail (get_bytes v) not_a_string
    decode_pairs vs (insert key value kv)

  unfoldable pub decode_extra_data_fields : Bytes → Outcome Error (Dict Bytes)
  unfolding decode_pairs
  decode_extra_data_fields input = if is_empty input then ok [] else do
    v ← or_fail (parse input) not_rlp
    vs ← or_fail (get_elems v) not_a_list
    decode_pairs vs []

  -- The loop of `MarshalRLPWith` over the committed seals: an empty seal is appended to the outer
  -- array, any other to the inner one.
  unfoldable pub empty_seals : List Bytes → List Value
  empty_seals [] = []
  empty_seals (a ∷ as_seals) =
      if is_empty a then new_bytes [] ∷ empty_seals as_seals else empty_seals as_seals

  unfoldable pub full_seals : List Bytes → List Value
  full_seals [] = []
  full_seals (a ∷ as_seals) =
      if is_empty a then full_seals as_seals else new_bytes a ∷ full_seals as_seals

  unfoldable pub marshal_rlp_with : ValidatorExtra → Value
  marshal_rlp_with extra = new_array (
      new_array (map (λ a. new_bytes (w.address_bytes a)) extra.validators)
        ∷ new_bytes extra.seal
        ∷ empty_seals extra.committed_seal
      ++ new_array (full_seals extra.committed_seal) ∷ [])

  -- `GetAddr` and `GetBytes` over a list, up to the first failure.
  unfoldable pub all_of : {A : Type 0} → (Value → Option A) → List Value → Option (List A)
  all_of read [] = some []
  all_of read (v ∷ vs) = elim (read v) [
    | none ↦ none
    | some a ↦ elim (all_of read vs) [ none ↦ none | some rest ↦ some (a ∷ rest) ]
  ]

  unfoldable pub unmarshal_elems : List Value → Outcome Error ValidatorExtra
  unmarshal_elems (vals ∷ seal_value ∷ committed ∷ rest) = do
    vs ← or_fail (get_elems vals) not_a_list
    addresses ← or_fail (all_of get_address vs) not_a_string
    seal_bytes ← or_fail (get_bytes seal_value) not_a_string
    cs ← or_fail (get_elems committed) not_a_list
    seals ← or_fail (all_of get_bytes cs) not_a_string
    ok (record { validators = addresses; seal = seal_bytes; committed_seal = seals })
  unmarshal_elems _ = err too_few_elements

  -- `UnmarshalRLP`: parse the bytes, then `UnmarshalRLPFrom`.
  unfoldable pub unmarshal_rlp : Bytes → Outcome Error ValidatorExtra
  unmarshal_rlp input = do
    v ← or_fail (parse input) not_rlp
    elems ← or_fail (get_elems v) not_a_list
    unmarshal_elems elems

  unfoldable pub put_validator_extra : Header → ValidatorExtra → Outcome Error Header
  put_validator_extra h extra = do
    kv ← decode_extra_data_fields h.extra_data
    ok (record h {
      extra_data =
          encode_extra_data_fields
            (insert key_extra_validators (marshal (marshal_rlp_with extra)) kv);
    })

  unfoldable pub assign_extra_validators : Header → List Address → Outcome Error Header
  unfolding put_validator_extra
  assign_extra_validators h addresses =
      put_validator_extra h (record { validators = addresses; seal = []; committed_seal = [] })

  unfoldable pub get_validator_extra : Header → Outcome Error ValidatorExtra
  get_validator_extra h = do
    kv ← decode_extra_data_fields h.extra_data
    input ← or_fail (lookup key_extra_validators kv) no_validators
    unmarshal_rlp input

  -- The common body of the three functions below: a hash and whether there is one. Data that cannot
  -- be decoded, a missing field and the zero hash all count as none.
  unfoldable pub target_in : Bytes → Dict Bytes → Hash × Bool
  target_in key kv = elim (lookup key kv) [
    | none ↦ (0, false)
    | some field ↦ if w.bytes_to_hash field == 0 then (0, false) else (w.bytes_to_hash field, true)
  ]

  unfoldable pub extra_data_target : Bytes → Header → Outcome Error (Hash × Bool)
  unfolding target_in
  extra_data_target key h = elim (decode_extra_data_fields h.extra_data) [
    | ok kv ↦ ok (target_in key kv)
    | err e ↦ ok (0, false)
    | panic ↦ panic
  ]

  unfoldable pub get_extra_data_fraud_proof_target : Header → Outcome Error (Hash × Bool)
  unfolding extra_data_target
  get_extra_data_fraud_proof_target = extra_data_target key_fraud_proof_of

  unfoldable pub get_extra_data_begin_dispute_resolution_target :
      Header → Outcome Error (Hash × Bool)
  unfolding extra_data_target
  get_extra_data_begin_dispute_resolution_target = extra_data_target key_begin_dispute_resolution_of

  unfoldable pub get_extra_data_end_dispute_resolution_target : Header → Outcome Error (Hash × Bool)
  unfolding extra_data_target
  get_extra_data_end_dispute_resolution_target = extra_data_target key_end_dispute_resolution_of
