-- ===== src/Extra/Validators.antt =====
-- The validator extra: its round trip through RLP and through a header, and the committed seals
-- with which the round trip fails.
use availproject_op_evm.Prelude.{
  ◌≡◌, ◌⊎◌, inl, inr, refl, >>=-eq-ok, Bool-cases, subst, ap, sym, ◌∙◌, true, false, some, List, [],
  ◌∷◌, map, ok, err,
}
use availproject_op_evm.Prelude.Bytes.{Bytes, bytes_eq, bytes_eq_refl}
use availproject_op_evm.Prelude.Dict.{Dict, lookup, insert, lookup-insert}
use availproject_op_evm.Chain.Types.{Address, Header}
use availproject_op_evm.Extra.{
  ValidatorExtra, not_a_list, is_empty, key_extra_validators, encode_extra_data_fields,
  decode_extra_data_fields, empty_seals, full_seals, marshal_rlp_with, all_of, unmarshal_elems,
  unmarshal_rlp, put_validator_extra, get_validator_extra, extra_data_target, target_in,
}
use availproject_op_evm.Extra.Encoding.{Wire, WireLaws}
use availproject_op_evm.Extra.Fields.{decode-encode_extra_data_fields}

-- No committed seal is the empty byte string.
abbrev pub HasFullSeals : List Bytes → Type 0
HasFullSeals [] = Unit {0}
HasFullSeals (b ∷ bs) = (is_empty b ≡ false) × HasFullSeals bs

-- Some committed seal is.
abbrev pub HasEmptySeal : List Bytes → Type 0
HasEmptySeal [] = ⊥
HasEmptySeal (b ∷ bs) = (is_empty b ≡ true) ⊎ HasEmptySeal bs

module _ (w : Wire) (laws : WireLaws w) where
  empty_seals-nil : (bs : List Bytes) → HasFullSeals bs → empty_seals w bs ≡ []
  unfolding empty_seals
  empty_seals-nil [] h = refl
  empty_seals-nil (b ∷ bs) h = rw h.0 (empty_seals-nil bs h.1)

  empty_seals-cons :
      (bs : List Bytes)
      → HasEmptySeal bs
      → (more : List w.Value) × (empty_seals w bs ≡ w.new_bytes [] ∷ more)
  unfolding empty_seals
  empty_seals-cons [] h = absurd h
  empty_seals-cons (b ∷ bs) (inl e) = (empty_seals w bs, rw e)
  empty_seals-cons (b ∷ bs) (inr more_seals) = elim (Bool-cases (is_empty b)) [
    | inl e ↦ (empty_seals w bs, rw e)
    | inr e ↦ let (more, eq) = empty_seals-cons bs more_seals in (more, rw e eq)
  ]

  all_of-full_seals :
      (bs : List Bytes) → HasFullSeals bs → all_of w w.get_bytes (full_seals w bs) ≡ some bs
  unfolding full_seals all_of
  all_of-full_seals [] h = refl
  all_of-full_seals (b ∷ bs) h =
      rw (h.0, laws.get_bytes-new_bytes b) (rw (all_of-full_seals bs h.1, all_of))

  all_of-addresses :
      (xs : List Address)
      → all_of w w.get_address (map (λ a. w.new_bytes (w.address_bytes a)) xs) ≡ some xs
  unfolding all_of
  all_of-addresses [] = refl
  all_of-addresses (x ∷ xs) = rw (laws.get_address-new_bytes x) (rw (all_of-addresses xs, all_of))

  unmarshal_rlp-new_array :
      (vs : List w.Value) → unmarshal_rlp w (w.marshal (w.new_array vs)) ≡ unmarshal_elems w vs
  unfolding unmarshal_rlp
  unmarshal_rlp-new_array vs = rw (laws.parse-marshal (w.new_array vs), laws.get_elems-new_array vs)

  -- An extra without empty committed seals is read back as it was written.
  pub unmarshal-marshal_rlp :
      (extra : ValidatorExtra)
      → HasFullSeals extra.committed_seal
      → unmarshal_rlp w (w.marshal (marshal_rlp_with w extra)) ≡ ok extra
  unfolding marshal_rlp_with unmarshal_elems
  unmarshal-marshal_rlp extra full =
      rw (unmarshal_rlp-new_array _, empty_seals-nil extra.committed_seal full)
        (rw (
          laws.get_elems-new_array (map (λ a. w.new_bytes (w.address_bytes a)) extra.validators),
          all_of-addresses extra.validators,
          laws.get_bytes-new_bytes extra.seal,
          laws.get_elems-new_array (full_seals w extra.committed_seal),
          all_of-full_seals extra.committed_seal full,
        ))

  -- An extra with an empty committed seal is written so that it cannot be read back: the empty seal
  -- lands in the outer array, in the place of the list of seals.
  pub unmarshal-marshal_rlp_empty_seal :
      (extra : ValidatorExtra)
      → HasEmptySeal extra.committed_seal
      → unmarshal_rlp w (w.marshal (marshal_rlp_with w extra)) ≡ err not_a_list
  unfolding marshal_rlp_with unmarshal_elems
  unmarshal-marshal_rlp_empty_seal extra empty =
      let (more, e) = empty_seals-cons extra.committed_seal empty in
      rw (unmarshal_rlp-new_array _, e)
        (rw (
          laws.get_elems-new_array (map (λ a. w.new_bytes (w.address_bytes a)) extra.validators),
          all_of-addresses extra.validators,
          laws.get_bytes-new_bytes extra.seal,
          laws.get_elems-new_bytes [],
        ))

  -- The header that `put_validator_extra` makes.
  abbrev pub with_extra : Header → ValidatorExtra → Dict Bytes → Header
  with_extra h extra kv = record h {
    extra_data =
        encode_extra_data_fields w
          (insert key_extra_validators (w.marshal (marshal_rlp_with w extra)) kv);
  }

  pub put_validator_extra_lem :
      (h : Header) (extra : ValidatorExtra) (kv : Dict Bytes)
      → decode_extra_data_fields w h.extra_data ≡ ok kv
      → put_validator_extra w h extra ≡ ok (with_extra h extra kv)
  unfolding put_validator_extra
  put_validator_extra_lem h extra kv e = rw e

  -- A header whose extra data can be decoded takes a validator extra without empty committed seals,
  -- and the extra is read back from the header.
  pub get-put_validator_extra :
      (h : Header) (extra : ValidatorExtra) (kv : Dict Bytes)
      → HasFullSeals extra.committed_seal
      → decode_extra_data_fields w h.extra_data ≡ ok kv
      → (h' : Header) × (put_validator_extra w h extra ≡ ok h')
        × (get_validator_extra w h' ≡ ok extra)
  unfolding get_validator_extra
  get-put_validator_extra h extra kv full e =
      let input : Bytes = w.marshal (marshal_rlp_with w extra) in
      let (kv', dec, _, same) =
        decode-encode_extra_data_fields w laws (insert key_extra_validators input kv) in
      (
        with_extra h extra kv,
        put_validator_extra_lem h extra kv e,
        rw
            (
              dec,
              same key_extra_validators,
              lookup-insert key_extra_validators key_extra_validators input kv,
              bytes_eq_refl key_extra_validators,
            )
            (unmarshal-marshal_rlp extra full),
      )

  pub extra_data_target_lem :
      (key : Bytes) (h : Header) (kv : Dict Bytes)
      → decode_extra_data_fields w h.extra_data ≡ ok kv
      → extra_data_target w key h ≡ ok (target_in w key kv)
  unfolding extra_data_target
  extra_data_target_lem key h kv e = rw (e, extra_data_target)

  pub target_in-ext :
      (key : Bytes) (a b : Dict Bytes)
      → lookup key a ≡ lookup key b
      → target_in w key a ≡ target_in w key b
  unfolding target_in
  target_in-ext key a b e = rw (e, target_in)

  extra_data_target-with_extra :
      (h : Header) (extra : ValidatorExtra) (key : Bytes) (kv : Dict Bytes)
      → decode_extra_data_fields w h.extra_data ≡ ok kv
      → bytes_eq key_extra_validators key ≡ false
      → extra_data_target w key (with_extra h extra kv) ≡ extra_data_target w key h
  extra_data_target-with_extra h extra key kv read other =
      let input : Bytes = w.marshal (marshal_rlp_with w extra) in
      let (kv', dec, _, same) =
        decode-encode_extra_data_fields w laws (insert key_extra_validators input kv) in
      extra_data_target_lem key (with_extra h extra kv) kv' dec
      ∙ ap ok (target_in-ext key kv' kv (same key ∙ found input))
      ∙ sym (extra_data_target_lem key h kv read)
    where
      found : (input : Bytes) → lookup key (insert key_extra_validators input kv) ≡ lookup key kv
      found input = rw (lookup-insert key_extra_validators key input kv, other)

  -- Writing the validator extra changes none of the other fields: a target stored under another key
  -- is the same before and after.
  pub extra_data_target-put_validator_extra :
      (h h' : Header) (extra : ValidatorExtra) (key : Bytes)
      → put_validator_extra w h extra ≡ ok h'
      → bytes_eq key_extra_validators key ≡ false
      → extra_data_target w key h' ≡ extra_data_target w key h
  unfolding put_validator_extra
  extra_data_target-put_validator_extra h h' extra key e other =
      let (kv, read, made) = >>=-eq-ok (decode_extra_data_fields w h.extra_data) _ e in
      let eq : with_extra h extra kv ≡ h' = cc made in
      subst (λ x. extra_data_target w key x ≡ extra_data_target w key h) eq
        (extra_data_target-with_extra h extra key kv read other)
