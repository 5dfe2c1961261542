-- ===== src/Chain/Batch/Write.antt =====
-- The batch is written once it has passed the checks.
use availproject_op_evm.Prelude.{ℕ, ◌≡◌, refl, List, Outcome, ok, err, panic}
use availproject_op_evm.Chain.Types
use availproject_op_evm.Chain.Types.{Header}
use availproject_op_evm.Chain.Monad.{Action, ◌>>=◌, ◌>>◌, gets, modify}
use availproject_op_evm.Chain.Writes.{
  Env, Chain, new_event, for_each, write_header_impl, dispatch_event,
}
use availproject_op_evm.Chain.Batch.{Error, write_failed, check_batch}
use availproject_op_evm.Extra.Encoding.{Wire}

module _ (w : Wire) (env : Env) where
  -- A round of the loop that writes, under an event of its own.
  abbrev pub write_one : ℕ → Header → Action (Chain env) (Unit {0})
  write_one fuel h = do
    modify λ c. record c { event = new_event }
    write_header_impl env fuel h
    event ← gets λ c. c.event
    dispatch_event env event

  abbrev pub written :
      Outcome Types.Error (Unit {0}) × Chain env → Outcome Error (Unit {0}) × Chain env
  written (ok u, c) = (ok tt, c)
  written (err e, c) = (err (write_failed e), c)
  written (panic, c) = (panic, c)

  -- `WriteHeadersWithBodies`, and `WriteHeaders`.
  pub write_headers_with_bodies : ℕ → List Header → Chain env → Outcome Error (Unit {0}) × Chain env
  write_headers_with_bodies fuel headers c = elim (check_batch w headers) [
    | ok u ↦ written (for_each env (write_one fuel) headers c)
    | err e ↦ (err e, c)
    | panic ↦ (panic, c)
  ]

  -- A batch that does not pass the checks changes nothing, whatever its first headers are.
  pub write_headers_with_bodies-refused :
      (fuel : ℕ) (headers : List Header) (c : Chain env) (e : Error)
      → check_batch w headers ≡ err e
      → write_headers_with_bodies fuel headers c ≡ (err e, c)
  unfolding write_headers_with_bodies
  write_headers_with_bodies-refused fuel headers c e refused =
      rw (refused, write_headers_with_bodies) refl
