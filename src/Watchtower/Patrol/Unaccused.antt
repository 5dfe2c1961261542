-- ===== src/Watchtower/Patrol/Unaccused.antt =====
-- What a watchtower does with the accusations of the others.
use availproject_op_evm.Prelude.{◌≡◌, ◌≢◌, refl, Bool, Option, none, some, true, false, ok}
use availproject_op_evm.Chain.Types.{Hash, Block}
use availproject_op_evm.Extra.{get_extra_data_fraud_proof_target}
use availproject_op_evm.Extra.Encoding.{Wire, WireLaws}
use availproject_op_evm.Seal.{Crypto}
use availproject_op_evm.Build.{Executor, ExecutorLaws}
use availproject_op_evm.Fraud.{is_fraud_proof_block}
use availproject_op_evm.Staking.Transactions.{Contract}
use availproject_op_evm.Watchtower.{Services, Tower, construct_fraudproof}
use availproject_op_evm.Watchtower.Accusation.{construct_fraudproof-target}
use availproject_op_evm.Watchtower.Patrol.{
  Verdict, valid, not_of_sequencers, faulty, Local, on_verdict, if_staked, once_applied,
  patrol_block,
}

-- A block that is applied and, by a staked watchtower, checked, and no more; `none` is a panic of one
-- of these.
module _ (l : Local) where
  abbrev once_checked : Option (Verdict × l.World) → Option l.World
  once_checked none = none
  once_checked (some (verdict, v)) = some v

  abbrev check_if_staked : Block → l.World → Option Bool → Option l.World
  check_if_staked blk v (some true) = once_checked (l.check blk v)
  check_if_staked blk v (some false) = some v
  check_if_staked blk v none = some v

  abbrev then_check : Block → Option (Bool × l.World) → Option l.World
  then_check blk none = none
  then_check blk (some (done, v)) = check_if_staked blk v (l.is_staked v)

  abbrev pub apply_and_check : Block → l.World → Option l.World
  apply_and_check blk v = then_check blk (l.apply blk v)

module _ (w : Wire) (l : Local) where
  is_fraud_proof_block-target :
      (blk : Block) (target : Hash)
      → get_extra_data_fraud_proof_target w blk.header ≡ ok (target, true)
      → is_fraud_proof_block w blk ≡ ok true
  unfolding is_fraud_proof_block
  is_fraud_proof_block-target blk target e = rw (e, is_fraud_proof_block) refl

  on_verdict-proof :
      (blk : Block) (r : Option (Verdict × l.World))
      → is_fraud_proof_block w blk ≡ ok true
      → on_verdict w l blk r ≡ once_checked l r
  on_verdict-proof blk none proof = refl
  on_verdict-proof blk (some (valid, v)) proof = refl
  on_verdict-proof blk (some (not_of_sequencers, v)) proof = refl
  on_verdict-proof blk (some (faulty, v)) proof = rw proof refl

  if_staked-proof :
      (blk : Block) (v : l.World) (staked : Option Bool)
      → is_fraud_proof_block w blk ≡ ok true
      → if_staked w l blk v staked ≡ check_if_staked l blk v staked
  if_staked-proof blk v none proof = refl
  if_staked-proof blk v (some false) proof = refl
  if_staked-proof blk v (some true) proof = on_verdict-proof blk (l.check blk v) proof

  once_applied-proof :
      (blk : Block) (r : Option (Bool × l.World))
      → is_fraud_proof_block w blk ≡ ok true
      → once_applied w l blk r ≡ then_check l blk r
  once_applied-proof blk none proof = refl
  once_applied-proof blk (some (done, v)) proof = if_staked-proof blk v (l.is_staked v) proof

  patrol_block-proof :
      (blk : Block) (v : l.World)
      → is_fraud_proof_block w blk ≡ ok true
      → patrol_block w l blk v ≡ apply_and_check l blk v
  unfolding patrol_block
  patrol_block-proof blk v proof = once_applied-proof blk (l.apply blk v) proof

-- Watchtowers do not accuse each other: the block that one builds against a malicious block whose hash
-- is not zero is applied by any other, and checked if that one is staked; whatever its check says of the block,
-- nothing is built or submitted against it.
pub construct_fraudproof-unaccused :
    (w : Wire) (laws : WireLaws w) (c : Crypto) (x : Executor) (executes : ExecutorLaws x)
    (s : Contract) (services : Services c) (tower : Tower w c x s services) (malicious blk : Block)
    (pool pool' : Option services.Pool)
    → construct_fraudproof w c x s services tower malicious pool ≡ (ok blk, pool')
    → malicious.header.hash ≢ 0
    → (other : Local) (v : other.World) → patrol_block w other blk v ≡ apply_and_check other blk v
construct_fraudproof-unaccused w laws c x executes s services tower malicious blk pool pool' e
      nonzero other v =
    patrol_block-proof w other blk v (
      is_fraud_proof_block-target w other blk malicious.header.hash (
        construct_fraudproof-target w c x s services laws executes tower malicious blk pool pool' e
          nonzero))
