-- ===== src/Staking/Transactions.antt =====
-- pkg/staking: the transactions that call the staking contract, and the test that recognises one of
-- them.
pub mod Recognition
use availproject_op_evm.Prelude.{
  ℕ, ◌+◌, ◌*◌, ◌^◌, ◌≡◌, Bool, false, Option, none, some, ◌++◌, Outcome, ok, err, panic, ◌>>=◌,
  or_fail, ltb, if◌then◌else◌, length, take,
}
use availproject_op_evm.Prelude.Bytes.{Bytes, codes, bytes_eq}
use availproject_op_evm.Chain.Types.{Address, Transaction}

-- `AddrStakingContract`, 0x0110000000000000000000000000000000000001.
abbrev pub addr_staking_contract : Address
addr_staking_contract = 272 * 2 ^ 144 + 1

pub data Error : Type 0 where
  no_method encoding_failed : Error

-- The values of a method's one named input.
pub data Input : Type 0 where
  address_input : Address → Input
  node_type_input : Bytes → Input
  amount_input : ℕ → Input

-- The staking contract's ABI, which comes from the repository of the contracts. A method is known
-- by its name; `method_by_id` finds the raw name by the first four bytes of a call.
pub record Contract : Type 0 where
  pub selector : Bytes → Option Bytes
  pub encode_inputs : Bytes → Input → Option Bytes
  pub method_by_id : Bytes → Option Bytes

module _ (s : Contract) where
  -- Selectors have four bytes and tell the methods apart.
  pub record ContractLaws : Type 0 where
    pub selector-length : (name id : Bytes) → s.selector name ≡ some id → length id ≡ 4
    pub method_by_id-selector :
        (name id : Bytes) → s.selector name ≡ some id → s.method_by_id id ≡ some name

abbrev pub begin_dispute_name : Bytes
begin_dispute_name = codes "BeginDisputeResolution"

abbrev pub end_dispute_name : Bytes
end_dispute_name = codes "EndDisputeResolution"

module _ (s : Contract) where
  -- The literal that the functions below return; its fields without a value are Go's zero values.
  abbrev pub legacy_tx : Address → ℕ → ℕ → Bytes → Transaction
  legacy_tx from gas gas_price input = record {
    hash = 0;
    from = from;
    to = some addr_staking_contract;
    nonce = 0;
    gas = gas;
    gas_price = gas_price;
    is_state_tx = false;
    input = input;
  }

  -- What they share: the method of that name, its encoded input, and the call. The first argument
  -- is what a missing method ends in.
  unfoldable pub call_tx :
      Outcome Error Bytes → Bytes → Input → Address → ℕ → ℕ → Outcome Error Transaction
  call_tx missing name input from gas gas_price = do
    id ← elim (s.selector name) [ none ↦ missing | some id ↦ ok id ]
    encoded ← or_fail (s.encode_inputs name input) encoding_failed
    ok (legacy_tx from gas gas_price (id ++ encoded))

  unfoldable pub begin_dispute_resolution_tx : Address → Address → ℕ → Outcome Error Transaction
  unfolding call_tx
  begin_dispute_resolution_tx from probation_addr gas =
      call_tx panic begin_dispute_name (address_input probation_addr) from gas 5000

  unfoldable pub end_dispute_resolution_tx : Address → Address → ℕ → Outcome Error Transaction
  unfolding call_tx
  end_dispute_resolution_tx from probation_addr gas =
      call_tx panic end_dispute_name (address_input probation_addr) from gas 5000

  -- `StakeTx`: the amount that it is called with plays no part.
  unfoldable pub stake_tx : Address → ℕ → Bytes → ℕ → Outcome Error Transaction
  unfolding call_tx
  stake_tx from amount node_type gas =
      call_tx (err no_method) (codes "stake") (node_type_input node_type) from gas 5000

  -- `UnStakeTx`: the selector alone.
  unfoldable pub unstake_tx : Address → ℕ → Outcome Error Transaction
  unstake_tx from gas = do
    id ← or_fail (s.selector (codes "unstake")) no_method
    ok (legacy_tx from gas 50000 id)

  unfoldable pub slash_staker_tx : Address → Address → ℕ → Outcome Error Transaction
  unfolding call_tx
  slash_staker_tx active_sequencer_addr malicious_staker_addr gas =
      call_tx (err no_method) (codes "slash") (address_input malicious_staker_addr)
        active_sequencer_addr gas 10000

  unfoldable pub set_threshold_tx : Address → ℕ → ℕ → Outcome Error Transaction
  unfolding call_tx
  set_threshold_tx from amount gas =
      call_tx (err no_method) (codes "SetStakingMinThreshold") (amount_input amount) from gas 5000

  unfoldable pub set_minimum_participants_tx : Address → ℕ → ℕ → Outcome Error Transaction
  unfolding call_tx
  set_minimum_participants_tx from amount gas =
      call_tx (err no_method) (codes "SetMinNumParticipants") (amount_input amount) from gas 5000

  unfoldable pub set_maximum_participants_tx : Address → ℕ → ℕ → Outcome Error Transaction
  unfolding call_tx
  set_maximum_participants_tx from amount gas =
      call_tx (err no_method) (codes "SetMaxNumParticipants") (amount_input amount) from gas 5000

  unfoldable pub set_minimum_sequencers_tx : Address → ℕ → ℕ → Outcome Error Transaction
  unfolding call_tx
  set_minimum_sequencers_tx from amount gas =
      call_tx (err no_method) (codes "SetMinNumSequencers") (amount_input amount) from gas 5000

  unfoldable pub set_maximum_sequencers_tx : Address → ℕ → ℕ → Outcome Error Transaction
  unfolding call_tx
  set_maximum_sequencers_tx from amount gas =
      call_tx (err no_method) (codes "SetMaxNumSequencers") (amount_input amount) from gas 5000

  unfoldable pub set_minimum_watchtowers_tx : Address → ℕ → ℕ → Outcome Error Transaction
  unfolding call_tx
  set_minimum_watchtowers_tx from amount gas =
      call_tx (err no_method) (codes "SetMinNumWatchtowers") (amount_input amount) from gas 5000

  unfoldable pub set_maximum_watchtowers_tx : Address → ℕ → ℕ → Outcome Error Transaction
  unfolding call_tx
  set_maximum_watchtowers_tx from amount gas =
      call_tx (err no_method) (codes "SetMaxNumWatchtowers") (amount_input amount) from gas 5000

  -- `IsBeginDisputeResolutionTx`, whose error is always nil.
  unfoldable pub is_begin_dispute_resolution_tx : Transaction → Bool
  is_begin_dispute_resolution_tx tx =
      if ltb (length tx.input) 4 then false else elim (s.method_by_id (take 4 tx.input)) [
        | none ↦ false
        | some raw_name ↦ bytes_eq raw_name begin_dispute_name
      ]
