-- ===== src/Seal/Recovery.antt =====
-- A sealed header names its signer: sealing leaves the signed hash as it was.
use availproject_op_evm.Prelude.{
  ◌≡◌, sym, subst, ◌∙◌, some, ok, >>=-eq-ok, or_fail-eq-ok, ok-injective,
}
use availproject_op_evm.Prelude.Bytes.{Bytes}
use availproject_op_evm.Chain.Types.{Header}
use availproject_op_evm.Extra.{
  signing_failed, ValidatorExtra, get_validator_extra, put_validator_extra, assign_extra_validators,
}
use availproject_op_evm.Extra.Encoding.{Wire, WireLaws}
use availproject_op_evm.Extra.Validators.{
  HasFullSeals, with_extra, put_validator_extra_lem, get-put_validator_extra,
}
use availproject_op_evm.Extra.Overwrite.{
  get_validator_extra-decodes, assign_extra_validators-with_extra,
}
use availproject_op_evm.Seal.{
  Crypto, CryptoLaws, calculate_header_hash, sign_seal_impl, write_seal, address_recover_impl,
  address_recover_from_header,
}

module _ (w : Wire) (laws : WireLaws w) (c : Crypto) where
  -- What a successful sealing did: it signed the header's hash and stored the signature.
  pub write_seal-parts :
      (prv : c.PrivateKey) (h h' : Header) (extra : ValidatorExtra)
      → get_validator_extra w h ≡ ok extra
      → write_seal w c prv h ≡ ok h'
      → (msg : Bytes) × (s : Bytes) × (calculate_header_hash w c h ≡ ok msg)
        × (c.sign prv (c.keccak msg) ≡ some s)
        × (put_validator_extra w h (record extra { seal = s }) ≡ ok h')
  unfolding write_seal sign_seal_impl
  write_seal-parts prv h h' extra got e =
      let (s, signed, rest) = >>=-eq-ok (sign_seal_impl w c prv h) _ e in
      let (msg, hashed, f) = >>=-eq-ok (calculate_header_hash w c h) _ signed in
      (msg, s, hashed, or_fail-eq-ok (c.sign prv (c.keccak msg)) signing_failed f, rw got at rest)

  -- A header that took a new seal has the extra with that seal.
  resealed :
      (h h' : Header) (extra : ValidatorExtra)
      → HasFullSeals extra.committed_seal
      → get_validator_extra w h ≡ ok extra
      → (s : Bytes) → put_validator_extra w h (record extra { seal = s }) ≡ ok h'
      → get_validator_extra w h' ≡ ok (record extra { seal = s })
  resealed h h' extra full got s put =
      let (kv, read) = get_validator_extra-decodes w h got in
      let (h'', put'', get'') =
        get-put_validator_extra w laws h (record extra { seal = s }) kv full read in
      subst (λ x. get_validator_extra w x ≡ ok (record extra { seal = s }))
        (ok-injective (sym put'' ∙ put)) get''

  resealed_hash :
      (h h' : Header) (extra : ValidatorExtra)
      → HasFullSeals extra.committed_seal
      → get_validator_extra w h ≡ ok extra
      → (s : Bytes) → put_validator_extra w h (record extra { seal = s }) ≡ ok h'
      → calculate_header_hash w c h' ≡ calculate_header_hash w c h
  unfolding calculate_header_hash
  resealed_hash h h' extra full got s put =
      let (kv, read) = get_validator_extra-decodes w h got in
      let same : with_extra w laws h (record extra { seal = s }) kv ≡ h' =
        ok-injective
          (sym (put_validator_extra_lem w laws h (record extra { seal = s }) kv read) ∙ put) in
      let assigned : assign_extra_validators w h' extra.validators
          ≡ assign_extra_validators w h extra.validators =
        subst
          (λ x.
            assign_extra_validators w x extra.validators
            ≡ assign_extra_validators w h extra.validators)
          same
          (assign_extra_validators-with_extra w laws h (record extra { seal = s }) kv
            extra.validators read) in
      rw (got, resealed h h' extra full got s put, assigned)

  -- The hash that is signed does not depend on the seal: a header that has a validator extra
  -- without empty committed seals, and is sealed, keeps it.
  pub calculate_header_hash-write_seal :
      (prv : c.PrivateKey) (h h' : Header) (extra : ValidatorExtra)
      → get_validator_extra w h ≡ ok extra
      → HasFullSeals extra.committed_seal
      → write_seal w c prv h ≡ ok h'
      → calculate_header_hash w c h' ≡ calculate_header_hash w c h
  calculate_header_hash-write_seal prv h h' extra got full e =
      let (_, s, _, _, put) = write_seal-parts prv h h' extra got e in
      resealed_hash h h' extra full got s put

  -- If a header has a validator extra without empty committed seals and sealing it succeeds, the
  -- address of the key that sealed it is recovered from the sealed header, whatever seal the header
  -- had before.
  pub address_recover-write_seal :
      CryptoLaws c
      → (prv : c.PrivateKey) (h h' : Header) (extra : ValidatorExtra)
      → get_validator_extra w h ≡ ok extra
      → HasFullSeals extra.committed_seal
      → write_seal w c prv h ≡ ok h'
      → address_recover_from_header w c h' ≡ ok (c.address_of prv)
  unfolding address_recover_from_header address_recover_impl
  address_recover-write_seal secure prv h h' extra got full e =
      let (msg, s, hashed, signed, put) = write_seal-parts prv h h' extra got e in
      rw (
        resealed h h' extra full got s put,
        resealed_hash h h' extra full got s put,
        hashed,
        secure.recover-sign prv (c.keccak msg) s signed,
      )
