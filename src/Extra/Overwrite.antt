-- ===== src/Extra/Overwrite.antt =====
-- Writing the validator extra of a header twice: the first one leaves no trace.
use availproject_op_evm.Prelude.{◌≡◌, sym, ap, ◌∙◌, List, [], ok, >>=-eq-ok, arith}
use availproject_op_evm.Prelude.Bytes.{Bytes}
use availproject_op_evm.Prelude.Dict.{Dict, lookup, insert, lookup-insert, IsMap, insert-IsMap}
use availproject_op_evm.Chain.Types.{Address, Header}
use availproject_op_evm.Extra.{
  ValidatorExtra, key_extra_validators, encode_extra_data_fields, decode_extra_data_fields,
  get_validator_extra, assign_extra_validators, marshal_rlp_with,
}
use availproject_op_evm.Extra.Encoding.{Wire, WireLaws}
use availproject_op_evm.Extra.Fields.{
  decode-encode_extra_data_fields, decode_extra_data_fields-IsMap, encode_extra_data_fields-ext,
}
use availproject_op_evm.Extra.Validators.{with_extra, put_validator_extra_lem}

-- A header that has a validator extra can be decoded.
pub get_validator_extra-decodes :
    (w : Wire) (h : Header) {extra : ValidatorExtra}
    → get_validator_extra w h ≡ ok extra
    → (kv : Dict Bytes) × (decode_extra_data_fields w h.extra_data ≡ ok kv)
unfolding get_validator_extra
get_validator_extra-decodes w h e =
    let (kv, read, _) = >>=-eq-ok (decode_extra_data_fields w h.extra_data) _ e in (kv, read)

module _ (w : Wire) (laws : WireLaws w) where
  overwrite_lookup :
      (a b : Bytes) (kv kv' : Dict Bytes)
      → ((j : Bytes) → lookup j kv' ≡ lookup j (insert key_extra_validators a kv))
      → (j : Bytes)
      → lookup j (insert key_extra_validators b kv') ≡ lookup j (insert key_extra_validators b kv)
  overwrite_lookup a b kv kv' same j = ground (
    arith,
    lookup-insert key_extra_validators j b kv',
    lookup-insert key_extra_validators j b kv,
    lookup-insert key_extra_validators j a kv,
    same j,
  )

  -- The extra data after the second extra is what it would be without the first.
  overwrite_encoding :
      (a b : Bytes) (kv kv' : Dict Bytes)
      → IsMap kv
      → IsMap kv'
      → ((j : Bytes) → lookup j kv' ≡ lookup j (insert key_extra_validators a kv))
      → encode_extra_data_fields w (insert key_extra_validators b kv')
        ≡ encode_extra_data_fields w (insert key_extra_validators b kv)
  overwrite_encoding a b kv kv' m m' same =
      encode_extra_data_fields-ext w _ _ (insert-IsMap key_extra_validators b kv' m')
        (insert-IsMap key_extra_validators b kv m) (overwrite_lookup a b kv kv' same)

  -- Assigning validators forgets the extra that a header had.
  pub assign_extra_validators-with_extra :
      (h : Header) (extra : ValidatorExtra) (kv : Dict Bytes) (vs : List Address)
      → decode_extra_data_fields w h.extra_data ≡ ok kv
      → assign_extra_validators w (with_extra w laws h extra kv) vs ≡ assign_extra_validators w h vs
  unfolding assign_extra_validators
  assign_extra_validators-with_extra h extra kv vs read =
      let input : Bytes = w.marshal (marshal_rlp_with w extra) in
      let bare : ValidatorExtra = record { validators = vs; seal = []; committed_seal = [] } in
      let (kv', dec, m', same) =
        decode-encode_extra_data_fields w laws (insert key_extra_validators input kv) in
      put_validator_extra_lem w laws (with_extra w laws h extra kv) bare kv' dec
      ∙ ap (λ d. ok (record h { extra_data = d }))
          (overwrite_encoding input (w.marshal (marshal_rlp_with w bare)) kv kv'
            (decode_extra_data_fields-IsMap w h.extra_data kv read) m' same)
      ∙ sym (put_validator_extra_lem w laws h bare kv read)
