-- ===== src/Chain/Batch.antt =====
-- `WriteHeadersWithBodies` of pkg/blockchain/blockchain.go: what it checks of a batch of headers.
pub mod Write
use availproject_op_evm.Prelude.{
  ℕ, ◌+◌, ◌-◌, ◌%◌, Bool, false, ◌||◌, List, [], ◌∷◌, Outcome, ok, err, panic, ◌>>=◌, ◌>>◌, ◌==◌,
  guard,
}
use availproject_op_evm.Chain.Types
use availproject_op_evm.Chain.Types.{Header, u64_mod}
use availproject_op_evm.Extra.{get_extra_data_begin_dispute_resolution_target}
use availproject_op_evm.Extra.Encoding.{Wire}

pub data Error : Type 0 where
  empty_batch sequence_not_correct parent_hash_not_correct : Error
  write_failed : Types.Error → Error

module _ (w : Wire) where
  -- Whether a header begins a dispute: an error of the extra data says no.
  abbrev pub is_fork : Header → Outcome Error Bool
  is_fork h = elim (get_extra_data_begin_dispute_resolution_target w h) [
    | ok (target, exists) ↦ ok exists
    | err e ↦ ok false
    | panic ↦ panic
  ]

  -- The loop that validates the chain, after a header.
  pub check_after : Header → List Header → Outcome Error (Unit {0})
  check_after before [] = ok tt
  check_after before (h ∷ hs) = do
    fork ← is_fork h
    guard (fork || (h.number + u64_mod - 1) % u64_mod == before.number) sequence_not_correct
    guard (h.parent_hash == before.hash) parent_hash_not_correct
    check_after h hs

  unfoldable pub check_batch : List Header → Outcome Error (Unit {0})
  unfolding check_after
  check_batch [] = err empty_batch
  check_batch (h ∷ hs) = check_after h hs
