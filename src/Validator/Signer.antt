-- ===== src/Validator/Signer.antt =====
-- A sealed block passes the header check of every node exactly if its miner sealed it.
use availproject_op_evm.Prelude.{
  ◌≡◌, ◌↔◌, refl, sym, ap, ◌∙◌, [], ok, ◌>>=◌, >>=-eq-ok, ok-injective, arith,
}
use availproject_op_evm.Prelude.Bytes.{Bytes, bytes_eq_iff}
use availproject_op_evm.Chain.Types.{Hash, Address, Header}
use availproject_op_evm.Extra.{
  ValidatorExtra, decode_extra_data_fields, put_validator_extra, get_validator_extra,
  assign_extra_validators,
}
use availproject_op_evm.Extra.Encoding.{Wire, WireLaws}
use availproject_op_evm.Seal.{
  Crypto, CryptoLaws, header_value, calculate_header_hash, write_seal, address_recover_impl,
  address_recover_from_header,
}
use availproject_op_evm.Seal.Recovery.{write_seal-parts, address_recover-write_seal}
use availproject_op_evm.Validator.{verify_header}

module _ (w : Wire) (c : Crypto) where
  -- Only the extra data of a header changes.
  pub put_validator_extra-parts :
      (h h' : Header) (extra : ValidatorExtra)
      → put_validator_extra w h extra ≡ ok h'
      → (bs : Bytes) × (h' ≡ record h { extra_data = bs })
  unfolding put_validator_extra
  put_validator_extra-parts h h' extra e =
      let (kv, _, done) = >>=-eq-ok (decode_extra_data_fields w h.extra_data) _ e in
      (_, sym (ok-injective done))

  pub write_seal-miner :
      (laws : WireLaws w) (key : c.PrivateKey) (h h' : Header) (extra : ValidatorExtra)
      → get_validator_extra w h ≡ ok extra
      → write_seal w c key h ≡ ok h'
      → h'.miner ≡ h.miner
  write_seal-miner laws key h h' extra got e =
      let (_, s, _, _, put) = write_seal-parts w laws c key h h' extra got e in
      let (bs, same) = put_validator_extra-parts h h' (record extra { seal = s }) put in
      rw same refl

  -- The hash that is signed does not read the header's own hash.
  calculate_header_hash-hash :
      (h : Header) (x : Hash)
      → calculate_header_hash w c (record h { hash = x }) ≡ calculate_header_hash w c h
  unfolding calculate_header_hash get_validator_extra assign_extra_validators header_value
  calculate_header_hash-hash h x = ground arith

  address_recover-hash :
      (h : Header) (x : Hash)
      → address_recover_from_header w c (record h { hash = x }) ≡ address_recover_from_header w c h
  unfolding address_recover_from_header get_validator_extra
  address_recover-hash h x =
      ap
        (λ hashed. do
          extra ← get_validator_extra w h
          msg ← hashed
          address_recover_impl w c extra.seal msg)
        (calculate_header_hash-hash h x)

  address_bytes-injective :
      (laws : WireLaws w) (a b : Address) → w.address_bytes a ≡ w.address_bytes b → a ≡ b
  address_bytes-injective laws a b e =
      sym (laws.bytes_to_address-address_bytes a)
      ∙ ap w.bytes_to_address e
      ∙ laws.bytes_to_address-address_bytes b

  verify_header-recovered :
      (laws : WireLaws w) (h : Header) (signer miner : Address)
      → address_recover_from_header w c h ≡ ok signer
      → h.miner ≡ w.address_bytes miner
      → (verify_header w c h ≡ ok tt) ↔ (signer ≡ miner)
  unfolding verify_header
  verify_header-recovered laws h signer miner recovered mined = (
    λ passed.
        address_bytes-injective laws signer miner
          (ground (arith, recovered, mined, bytes_eq_iff (w.address_bytes signer) h.miner, passed)),
    λ same. ground (arith, recovered, mined, bytes_eq_iff (w.address_bytes signer) h.miner, same),
  )

  -- A header with a validator extra without committed seals, once it is sealed and its hash is
  -- computed, passes the header check of the validator exactly if the key that sealed it is that of
  -- its miner.
  pub verify_header-write_seal :
      WireLaws w
      → CryptoLaws c
      → (key : c.PrivateKey) (h sealed : Header) (extra : ValidatorExtra) (miner : Address)
        (x : Hash)
      → get_validator_extra w h ≡ ok extra
      → extra.committed_seal ≡ []
      → h.miner ≡ w.address_bytes miner
      → write_seal w c key h ≡ ok sealed
      → (verify_header w c (record sealed { hash = x }) ≡ ok tt) ↔ (c.address_of key ≡ miner)
  verify_header-write_seal laws crypto key h sealed extra miner x got none_committed mined e =
      verify_header-recovered laws (record sealed { hash = x }) (c.address_of key) miner
        (address_recover-hash sealed x
          ∙ address_recover-write_seal w laws c crypto key h sealed extra got (rw none_committed tt)
              e)
        (write_seal-miner laws key h sealed extra got e ∙ mined)
