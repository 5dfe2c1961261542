-- ===== src/Staking/Participants/Membership.antt =====
-- pkg/staking/participants.go: who counts as an active sequencer.
use availproject_op_evm.Prelude.{
  ◌≡◌, refl, ap, ℕ, Bool, not, ◌&&◌, some, List, [], ◌∷◌, ok, elem, arith, ◌==◌, ==_iff, Bool-cases,
  inl, inr,
}
use availproject_op_evm.Chain.Types.{Address, Header}
use availproject_op_evm.Extra.Encoding.{Wire}
use availproject_op_evm.Seal.{Crypto}
use availproject_op_evm.Build.{Executor}
use availproject_op_evm.Staking.Participants.{
  Views, sequencer, without_probation, begin_query, query_active_sequencers, get, contains,
  in_probation, should_stake,
}

elem-without_probation :
    (addr : Address) (probation addrs : List Address)
    → elem addr (without_probation probation addrs) ≡ (elem addr addrs && not (elem addr probation))
unfolding without_probation elem
elem-without_probation addr probation [] = refl
elem-without_probation addr probation (a ∷ addrs) = elim (Bool-cases (a == addr)) [
  | inl e ↦
      let same : elem a probation ≡ elem addr probation =
        ap (λ k. elem k probation) ((==_iff a addr).0 e) in
      ground (arith, e, same, elem-without_probation addr probation addrs)
  | inr e ↦ ground (arith, e, elem-without_probation addr probation addrs)
]

module _ (w : Wire) (c : Crypto) (x : Executor) (v : Views x) (head : Header) where
  should_stake_lem :
      (key : c.PrivateKey) (b : Bool)
      → contains w c x v head (c.address_of key) sequencer ≡ ok b
      → should_stake w c x v head key sequencer ≡ ok (not b)
  unfolding should_stake
  should_stake_lem key b e = rw (e, should_stake) refl

  active :
      (gas : ℕ) (t : x.Transition) (addrs probation : List Address)
      → begin_query w c x v head (w.bytes_to_address head.miner) ≡ ok (gas, t)
      → v.query_sequencers t gas (w.bytes_to_address head.miner) ≡ some addrs
      → v.query_sequencers_in_probation t gas (w.bytes_to_address head.miner) ≡ some probation
      → (addr : Address)
      → contains w c x v head addr sequencer ≡ ok (elem addr addrs && not (elem addr probation))
  unfolding contains get query_active_sequencers
  active gas t addrs probation begun asked in_trouble addr =
      rw (begun, asked, in_trouble) (ap ok (elem-without_probation addr probation addrs))

  -- Where the staking contract answers, an address is an active sequencer exactly if it is one of
  -- its sequencers and not in probation; and the node of a key should stake as a sequencer exactly if its
  -- address is not an active one.
  pub contains-sequencer :
      (gas : ℕ) (t : x.Transition) (addrs probation : List Address)
      → begin_query w c x v head (w.bytes_to_address head.miner) ≡ ok (gas, t)
      → v.query_sequencers t gas (w.bytes_to_address head.miner) ≡ some addrs
      → v.query_sequencers_in_probation t gas (w.bytes_to_address head.miner) ≡ some probation
      → (addr : Address) (key : c.PrivateKey)
      → (contains w c x v head addr sequencer ≡ ok (elem addr addrs && not (elem addr probation)))
        × (in_probation w c x v head addr ≡ ok (elem addr probation))
        × (should_stake w c x v head key sequencer
            ≡ ok (not (elem (c.address_of key) addrs && not (elem (c.address_of key) probation))))
  unfolding in_probation
  contains-sequencer gas t addrs probation begun asked in_trouble addr key = (
    active gas t addrs probation begun asked in_trouble addr,
    rw (begun, in_trouble) refl,
    should_stake_lem key _ (active gas t addrs probation begun asked in_trouble (c.address_of key)),
  )
