-- ===== src/Seal.antt =====
-- pkg/block/seal.go: the producer's signature in a header.
pub mod Recovery
use availproject_op_evm.Prelude.{
  ℕ, ◌≡◌, Option, none, some, List, [], ◌∷◌, Outcome, ok, ◌>>=◌, or_fail,
}
use availproject_op_evm.Prelude.Bytes.{Bytes}
use availproject_op_evm.Chain.Types.{Address, Header}
use availproject_op_evm.Extra.{
  Error, signing_failed, ValidatorExtra, get_validator_extra, put_validator_extra,
  assign_extra_validators,
}
use availproject_op_evm.Extra.Encoding.{Wire}

-- polygon-edge's package crypto: signatures over digests, with recovery of the signer's address
-- (`RecoverPubkey` and `PubKeyToAddress`), and Keccak-256.
pub record Crypto : Type 1 where
  pub PrivateKey : Type 0
  pub address_of : PrivateKey → Address
  pub sign : PrivateKey → Bytes → Option Bytes
  pub recover : Bytes → Bytes → Option Address
  pub keccak : Bytes → Bytes

module _ (c : Crypto) where
  open c use {PrivateKey, address_of, sign, recover}

  -- The signer of a digest is recovered from the signature.
  pub record CryptoLaws : Type 0 where
    pub recover-sign :
        (k : PrivateKey) (digest s : Bytes)
        → sign k digest ≡ some s
        → recover s digest ≡ some (address_of k)

module _ (w : Wire) (c : Crypto) where
  open w use {Value, new_array, new_bytes, new_uint, hash_bytes, marshal}

  -- The list that `calculateHeaderHash` hashes.
  unfoldable pub header_value : Header → Value
  header_value h = new_array (
      new_bytes (hash_bytes h.parent_hash)
      ∷ new_bytes (hash_bytes h.sha3_uncles)
      ∷ new_bytes h.miner
      ∷ new_bytes (hash_bytes h.state_root)
      ∷ new_bytes (hash_bytes h.tx_root)
      ∷ new_bytes (hash_bytes h.receipts_root)
      ∷ new_bytes h.logs_bloom
      ∷ new_uint h.difficulty
      ∷ new_uint h.number
      ∷ new_uint h.gas_limit
      ∷ new_uint h.gas_used
      ∷ new_uint h.timestamp
      ∷ new_bytes h.extra_data
      ∷ [])

  unfoldable pub calculate_header_hash : Header → Outcome Error Bytes
  unfolding header_value
  calculate_header_hash h = do
    extra ← get_validator_extra w h
    stripped ← assign_extra_validators w h extra.validators
    ok (c.keccak (marshal (header_value stripped)))

  unfoldable pub sign_seal_impl : c.PrivateKey → Header → Outcome Error Bytes
  sign_seal_impl prv h = do
    msg ← calculate_header_hash h
    or_fail (c.sign prv (c.keccak msg)) signing_failed

  unfoldable pub write_seal : c.PrivateKey → Header → Outcome Error Header
  unfolding sign_seal_impl
  write_seal prv h = do
    signature ← sign_seal_impl prv h
    extra ← get_validator_extra w h
    put_validator_extra w h (record extra { seal = signature })

  unfoldable pub address_recover_impl : Bytes → Bytes → Outcome Error Address
  address_recover_impl sig msg = or_fail (c.recover sig (c.keccak msg)) signing_failed

  unfoldable pub address_recover_from_header : Header → Outcome Error Address
  unfolding address_recover_impl
  address_recover_from_header h = do
    extra ← get_validator_extra w h
    msg ← calculate_header_hash h
    address_recover_impl extra.seal msg
