-- ===== src/Staking/Participants.antt =====
-- pkg/staking/participants.go: who takes part, as the staking contract says it on top of the head of
-- the chain.
pub mod Membership
use availproject_op_evm.Prelude.{
  ℕ, ◌+◌, ◌%◌, Bool, true, false, not, Option, none, some, List, [], ◌∷◌, Outcome, ok, err, panic,
  ◌>>=◌, or_fail, ◌==◌, elem, if◌then◌else◌,
}
use availproject_op_evm.Prelude.Bytes.{Bytes}
use availproject_op_evm.Chain.Types.{Hash, Address, u64_mod, Header}
use availproject_op_evm.Extra.Encoding.{Wire}
use availproject_op_evm.Seal.{Crypto}
use availproject_op_evm.Build.{Executor, fresh_header}

-- `NodeType` is a string: any other one is refused.
pub data NodeType : Type 0 where
  sequencer watch_tower unknown_type : NodeType

pub data Error : Type 0 where
  no_gas_limit no_state query_failed node_type_mismatch : Error

-- The calls of the staking contract's views on a state, with a gas limit and a caller:
-- `QuerySequencers`, `QuerySequencersInProbation` and `QueryWatchtower`.
pub record Views (x : Executor) : Type 0 where
  pub query_sequencers : x.Transition → ℕ → Address → Option (List Address)
  pub query_sequencers_in_probation : x.Transition → ℕ → Address → Option (List Address)
  pub query_watchtower : x.Transition → ℕ → Address → Option (List Address)

-- The main loop of `QueryActiveSequencers`: those that are not in probation.
unfoldable pub without_probation : List Address → List Address → List Address
without_probation probation [] = []
without_probation probation (a ∷ addrs) =
    let rest = without_probation probation addrs in if elem a probation then rest else a ∷ rest

module _ (w : Wire) (c : Crypto) (x : Executor) (v : Views x) (head : Header) where
  -- The header on which a query runs.
  abbrev pub query_header : Address → Header
  query_header miner = record (fresh_header w c x head) {
    miner = w.address_bytes miner;
    timestamp = x.now;
  }

  -- The gas limit and the state on which a query runs.
  unfoldable pub begin_query : Address → Outcome Error (ℕ × x.Transition)
  begin_query miner = do
    gas ← or_fail (x.calculate_gas_limit ((head.number + 1) % u64_mod)) no_gas_limit
    t ← or_fail (x.begin_txn head.state_root (query_header miner) miner) no_state
    ok (gas, t)

  unfoldable pub query_active_sequencers : x.Transition → ℕ → Address → Outcome Error (List Address)
  unfolding begin_query without_probation
  query_active_sequencers t gas from = do
    addrs ← or_fail (v.query_sequencers t gas from) query_failed
    (probation_gas, transition) ← begin_query from
    probation_addrs ←
        or_fail (v.query_sequencers_in_probation transition probation_gas from) query_failed
    ok (without_probation probation_addrs addrs)

  abbrev pub query_by_type : NodeType → x.Transition → ℕ → Address → Outcome Error (List Address)
  unfolding query_active_sequencers
  query_by_type sequencer t gas from = query_active_sequencers t gas from
  query_by_type watch_tower t gas from = or_fail (v.query_watchtower t gas from) query_failed
  query_by_type unknown_type t gas from = err node_type_mismatch

  -- `Get`.
  unfoldable pub get : NodeType → Outcome Error (List Address)
  unfolding begin_query
  get node_type = do
    (gas, t) ← begin_query (w.bytes_to_address head.miner)
    query_by_type node_type t gas (w.bytes_to_address head.miner)

  -- `Contains`.
  unfoldable pub contains : Address → NodeType → Outcome Error Bool
  unfolding get
  contains addr node_type = do addrs ← get node_type; ok (elem addr addrs)

  -- `InProbation`.
  unfoldable pub in_probation : Address → Outcome Error Bool
  unfolding begin_query
  in_probation addr = do
    (gas, t) ← begin_query (w.bytes_to_address head.miner)
    probation_addrs ←
        or_fail (v.query_sequencers_in_probation t gas (w.bytes_to_address head.miner)) query_failed
    ok (elem addr probation_addrs)

  -- `ShouldStake` of a node: an error counts as staked.
  unfoldable pub should_stake : c.PrivateKey → NodeType → Outcome Error Bool
  unfolding contains
  should_stake key node_type = elim (contains (c.address_of key) node_type) [
    | ok staked ↦ ok (not staked)
    | err e ↦ ok false
    | panic ↦ panic
  ]
