-- ===== src/Node/Staking/Retries.antt =====
-- What becomes of a stake that goes through the pool.
use availproject_op_evm.Prelude.{ℕ, zero, suc, ◌≡◌, refl, ap, true, false, Option, ok}
use availproject_op_evm.Chain.Types.{Address, Header, Transaction}
use availproject_op_evm.Extra.Encoding.{Wire}
use availproject_op_evm.Seal.{Crypto}
use availproject_op_evm.Build.{Executor}
use availproject_op_evm.Resolution.{Outside}
use availproject_op_evm.Staking.Participants.{Views}
use availproject_op_evm.Staking.Transactions.{Contract}
use availproject_op_evm.Node.Kind.{
  Kind, bootstrap_sequencer, sequencer, watch_tower, other, kind_name,
}
use availproject_op_evm.Node.Staking.{
  IsPooled, Pooling, signed_stake, try_to_add, stake_through_tx_pool, done_with, stake_as,
  is_staked, ensure_staked,
}

module _ (w : Wire) (c : Crypto) (x : Executor) (s : Contract)
    (sign_tx : c.PrivateKey → Transaction → Option Transaction) (o : Outside)
    (views : Views x) where
  try_to_add-refused :
      (add : Pooling w c x s sign_tx o) (n : ℕ) (tx : Transaction) (v : o.World)
      → ((u : o.World) → add tx u ≡ (false, u))
      → try_to_add w c x s sign_tx o add n tx v ≡ v
  unfolding try_to_add
  try_to_add-refused add zero tx v refuses = refl
  try_to_add-refused add (suc n) tx v refuses =
      rw (ap (λ r. r.0) (refuses v), try_to_add)
        (rw (ap (λ r. r.1) (refuses v)) (try_to_add-refused add n tx v refuses))

  try_to_add-taken :
      (add : Pooling w c x s sign_tx o) (n : ℕ) (tx : Transaction) (u v : o.World)
      → add tx v ≡ (true, u)
      → try_to_add w c x s sign_tx o add (suc n) tx v ≡ u
  unfolding try_to_add
  try_to_add-taken add n tx u v taken = rw (ap (λ r. r.0) taken, try_to_add) (ap (λ r. r.1) taken)

  stake_through_tx_pool-ok :
      (add : Pooling w c x s sign_tx o) (kind : Kind) (addr : Address) (key : c.PrivateKey)
      (tx : Transaction) (v : o.World)
      → signed_stake w c x s sign_tx addr key (kind_name kind) ≡ ok tx
      → stake_through_tx_pool w c x s sign_tx o add kind addr key v
        ≡ (ok true, try_to_add w c x s sign_tx o add 10 tx v)
  unfolding stake_through_tx_pool
  stake_through_tx_pool-ok add kind addr key tx v signed = rw (signed, stake_through_tx_pool) refl

  stake_as-pool :
      (add : Pooling w c x s sign_tx o) (kind : Kind) (head : Header) (addr : Address)
      (key : c.PrivateKey) (tx : Transaction) (v : o.World)
      → IsPooled kind
      → signed_stake w c x s sign_tx addr key (kind_name kind) ≡ ok tx
      → stake_as w c x s sign_tx o add kind head addr key v
        ≡ (ok tt, try_to_add w c x s sign_tx o add 10 tx v)
  unfolding stake_as
  stake_as-pool add bootstrap_sequencer head addr key tx v pooled signed = absurd pooled
  stake_as-pool add sequencer head addr key tx v pooled signed =
      ap (λ r. done_with w c x s sign_tx o r)
        (stake_through_tx_pool-ok add sequencer addr key tx v signed)
  stake_as-pool add watch_tower head addr key tx v pooled signed =
      ap (λ r. done_with w c x s sign_tx o r)
        (stake_through_tx_pool-ok add watch_tower addr key tx v signed)
  stake_as-pool add (other name) head addr key tx v pooled signed = absurd pooled

  -- A sequencer or a watchtower that is neither in probation nor staked, and whose stake can be
  -- signed, counts as staked whatever the pool does: if the pool takes the stake, it is in the pool;
  -- if the pool refuses it each time and changes nothing, nothing has changed.
  pub ensure_staked-pool :
      (add : Pooling w c x s sign_tx o) (kind : Kind) (head : Header) (addr : Address)
      (key : c.PrivateKey) (tx : Transaction) (v : o.World)
      → IsPooled kind
      → is_staked w c x s sign_tx o views kind head addr ≡ ok false
      → signed_stake w c x s sign_tx addr key (kind_name kind) ≡ ok tx
      → let after = ensure_staked w c x s sign_tx o views add kind head addr key v in
        (after.0 ≡ ok tt)
        × ((u : o.World) → add tx v ≡ (true, u) → after.1 ≡ u)
        × (((u : o.World) → add tx u ≡ (false, u)) → after.1 ≡ v)
  unfolding ensure_staked
  ensure_staked-pool add kind head addr key tx v pooled unstaked signed =
      rw (unstaked, ensure_staked)
        (rw (stake_as-pool add kind head addr key tx v pooled signed) (
          refl,
          λ u taken. try_to_add-taken add 9 tx u v taken,
          λ refuses. try_to_add-refused add 10 tx v refuses,
        ))
