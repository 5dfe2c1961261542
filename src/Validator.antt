-- ===== src/Validator.antt =====
-- consensus/avail/validator/validator.go: what every node checks of a block that it reads from
-- Avail. The checks of the parent and of the body are in Chain/Verify.
pub mod Signer
use availproject_op_evm.Prelude.{
  map_error, Bool, Option, none, some, Outcome, ok, err, panic, ◌>>=◌, ◌>>◌, guard, if◌then◌else◌,
}
use availproject_op_evm.Prelude.Bytes.{bytes_eq}
use availproject_op_evm.Prelude.Dict.{lookup}
use availproject_op_evm.Chain.Types
use availproject_op_evm.Chain.Types.{Hash, Header, Transaction, Block}
use availproject_op_evm.Chain.Verify.{
  Execution, validator_verify_block_parent, validator_verify_block_body,
}
use availproject_op_evm.Extra
use availproject_op_evm.Extra.{key_fraud_proof_of, decode_extra_data_fields}
use availproject_op_evm.Extra.Encoding.{Wire}
use availproject_op_evm.Seal.{Crypto, address_recover_from_header}

pub data Error : Type 0 where
  invalid_block no_block signer_mismatch : Error
  extra_data : Extra.Error → Error
  verification : Types.Error → Error

abbrev pub lift_extra : {A : Type 0} → Outcome Extra.Error A → Outcome Error A
lift_extra = map_error extra_data

abbrev pub lift_verification : {A : Type 0} → Outcome Types.Error A → Outcome Error A
lift_verification = map_error verification

module _ (w : Wire) (c : Crypto) where
  -- `verifyHeader`: the signer is the miner.
  unfoldable pub verify_header : Header → Outcome Error (Unit {0})
  verify_header h = do
    signer ← lift_extra (address_recover_from_header w c h)
    guard (bytes_eq (w.address_bytes signer) h.miner) signer_mismatch

  module _ (e : Execution) (read_header : Hash → Option Header) where
    -- `verifyBlock`; `none` is a nil block.
    unfoldable pub verify_block :
        (Transaction → Outcome Types.Error Bool) → Option Block → Outcome Error (Unit {0})
    verify_block staking_test none = err no_block
    verify_block staking_test (some blk) =
        lift_verification (validator_verify_block_parent read_header staking_test blk)
        >> lift_verification (validator_verify_block_body e blk)

    -- `verifyFinalizedBlock`.
    unfoldable pub verify_finalized_block :
        (Transaction → Outcome Types.Error Bool) → Block → Outcome Error (Unit {0})
    verify_finalized_block staking_test blk =
        verify_header blk.header >> verify_block staking_test (some blk)

    -- `Check`; `none` is a nil header.
    unfoldable pub check :
        (Transaction → Outcome Types.Error Bool) → Option Block → Outcome Error (Unit {0})
    check staking_test none = err invalid_block
    check staking_test (some blk) = verify_finalized_block staking_test blk

-- `ProcessFraudproof`: the hash that it logs, if there is one.
unfoldable pub process_fraudproof : Wire → Header → Outcome Error (Option Hash)
process_fraudproof w h = do
  kv ← lift_extra (decode_extra_data_fields w h.extra_data)
  elim (lookup key_fraud_proof_of kv) [
    | none ↦ ok none
    | some field ↦ ok (some (w.bytes_to_hash field))
  ]
