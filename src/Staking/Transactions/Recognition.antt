-- ===== src/Staking/Transactions/Recognition.antt =====
-- pkg/staking and pkg/blockchain: which transactions the two tests take for the beginning of a
-- dispute.
use mathlib.Core.List.{append-nil}
use availproject_op_evm.Prelude.{
  ℕ, ◌<◌, ◌≡◌, ◌↔◌, refl, sym, ap, ◌∙◌, Bool, true, false, Option, some, none, ◌++◌, Outcome, ok,
  err, panic, [], >>=-eq-ok, or_fail, or_fail-eq-ok, ok-injective, length, take, drop, take-append,
  leb, ltb, length-append, if◌then◌else◌, arith,
}
use availproject_op_evm.Prelude.Bytes.{Bytes, codes, bytes_eq, bytes_eq_iff, bytes_eq_refl}
use availproject_op_evm.Chain.Types.{Address, Transaction}
use availproject_op_evm.Chain.Verify
use availproject_op_evm.Chain.Verify.{Abi}
use availproject_op_evm.Staking.Transactions.{
  Error, no_method, encoding_failed, Input, Contract, ContractLaws, begin_dispute_name,
  end_dispute_name, call_tx, begin_dispute_resolution_tx, end_dispute_resolution_tx, stake_tx,
  unstake_tx, slash_staker_tx, is_begin_dispute_resolution_tx,
}

-- The chain's test, on a selector of four bytes.
chain_test_iff :
    (abi : Abi) (tx : Transaction)
    → length abi.selector ≡ 4
    → (Verify.is_begin_dispute_resolution_tx abi tx ≡ true) ↔ (
        (4 < length tx.input)
        × (take 4 tx.input ≡ abi.selector)
        × (abi.decode_inputs (drop 4 tx.input) ≡ some true))
unfolding Verify.is_begin_dispute_resolution_tx
chain_test_iff abi tx four = rw four (by_decoding (abi.decode_inputs (drop 4 tx.input)))
  where
    by_decoding :
        (decoded : Option Bool)
        → ((if leb (length tx.input) 4
              then false
              else if bytes_eq (take 4 tx.input) abi.selector
              then elim decoded [ none ↦ false | some exists ↦ exists ]
              else false)
            ≡ true)
          ↔ ((4 < length tx.input) × (take 4 tx.input ≡ abi.selector) × (decoded ≡ some true))
    by_decoding none = ground (arith, bytes_eq_iff (take 4 tx.input) abi.selector)
    by_decoding (some true) = ground (arith, bytes_eq_iff (take 4 tx.input) abi.selector)
    by_decoding (some false) = ground (arith, bytes_eq_iff (take 4 tx.input) abi.selector)

module _ (s : Contract) (laws : ContractLaws s) where
  -- A call of a method is told by its name, whatever follows the selector.
  call-name :
      (name id args : Bytes) (tx : Transaction)
      → s.selector name ≡ some id
      → tx.input ≡ id ++ args
      → is_begin_dispute_resolution_tx s tx ≡ bytes_eq name begin_dispute_name
  unfolding is_begin_dispute_resolution_tx
  call-name name id args tx selected made =
      let four : length id ≡ 4 = laws.selector-length name id selected in
      let long : ltb (length tx.input) 4 ≡ false =
        ground (arith, made, four, length-append id args) in
      let head : take 4 tx.input ≡ id =
        ap (take 4) made ∙ ap (λ n. take n (id ++ args)) (sym four) ∙ take-append id args in
      rw (long, head, laws.method_by_id-selector name id selected) refl

  data IsFailure : Outcome Error Bytes → Type 0 where
    failed : {e : Error} → IsFailure (err e)
    panicked : IsFailure panic

  chosen :
      (missing : Outcome Error Bytes) (o : Option Bytes) (id : Bytes)
      → IsFailure missing
      → elim o [ none ↦ missing | some found ↦ ok found ] ≡ ok id
      → o ≡ some id
  chosen missing none id failure e = absurd (refuted missing failure e)
    where
      refuted : (m : Outcome Error Bytes) → IsFailure m → m ≡ ok id → ⊥
      refuted (ok b) failure h = elim failure [ ]
      refuted (err x) failed h = cc
      refuted panic panicked h = cc
  chosen missing (some found) id failure e = ap some (ok-injective e)

  call_tx-name :
      (missing : Outcome Error Bytes) (name : Bytes) (input : Input) (from : Address)
      (gas price : ℕ) (tx : Transaction)
      → IsFailure missing
      → call_tx s missing name input from gas price ≡ ok tx
      → is_begin_dispute_resolution_tx s tx ≡ bytes_eq name begin_dispute_name
  unfolding call_tx
  call_tx-name missing name input from gas price tx failure e =
      let (id, selected, r1) =
        >>=-eq-ok (elim (s.selector name) [ none ↦ missing | some found ↦ ok found ]) _ e in
      let (encoded, _, made) =
        >>=-eq-ok (or_fail (s.encode_inputs name input) encoding_failed) _ r1 in
      call-name name id encoded tx (chosen missing (s.selector name) id failure selected)
        (ap (λ t. t.input) (sym (ok-injective made)))

  -- The transaction that `BeginDisputeResolutionTx` makes is recognised by
  -- `IsBeginDisputeResolutionTx`.
  pub is_begin-begin_dispute_resolution_tx :
      (from probation_addr : Address) (gas : ℕ) (tx : Transaction)
      → begin_dispute_resolution_tx s from probation_addr gas ≡ ok tx
      → is_begin_dispute_resolution_tx s tx ≡ true
  unfolding begin_dispute_resolution_tx
  is_begin-begin_dispute_resolution_tx from probation_addr gas tx e =
      call_tx-name panic begin_dispute_name _ from gas 5000 tx panicked e
      ∙ bytes_eq_refl begin_dispute_name

  -- The transactions that end a dispute, stake, unstake or slash.
  pub data IsOtherCall (tx : Transaction) : Type 0 where
    ends :
        (from probation_addr : Address) (gas : ℕ)
        → end_dispute_resolution_tx s from probation_addr gas ≡ ok tx
        → IsOtherCall tx
    stakes :
        (from : Address) (amount : ℕ) (node_type : Bytes) (gas : ℕ)
        → stake_tx s from amount node_type gas ≡ ok tx
        → IsOtherCall tx
    unstakes : (from : Address) (gas : ℕ) → unstake_tx s from gas ≡ ok tx → IsOtherCall tx
    slashes :
        (from malicious : Address) (gas : ℕ)
        → slash_staker_tx s from malicious gas ≡ ok tx
        → IsOtherCall tx

  -- None of the transactions that end a dispute, stake, unstake or slash is taken for the beginning
  -- of a dispute.
  pub is_begin-other_call :
      (tx : Transaction) → IsOtherCall tx → is_begin_dispute_resolution_tx s tx ≡ false
  unfolding end_dispute_resolution_tx stake_tx unstake_tx slash_staker_tx bytes_eq
  is_begin-other_call tx (ends from probation_addr gas e) =
      call_tx-name panic end_dispute_name _ from gas 5000 tx panicked e
  is_begin-other_call tx (stakes from amount node_type gas e) =
      call_tx-name (err no_method) (codes "stake") _ from gas 5000 tx failed e
  is_begin-other_call tx (slashes from malicious gas e) =
      call_tx-name (err no_method) (codes "slash") _ from gas 10000 tx failed e
  is_begin-other_call tx (unstakes from gas e) =
      let (id, selected, made) = >>=-eq-ok (or_fail (s.selector (codes "unstake")) no_method) _ e in
      call-name (codes "unstake") id [] tx (or_fail-eq-ok _ _ selected)
        (ap (λ t. t.input) (sym (ok-injective made)) ∙ sym (append-nil id))

  starts_with_selector :
      (tx : Transaction) (id : Bytes)
      → ((raw : Bytes) → s.method_by_id raw ≡ some begin_dispute_name → raw ≡ id)
      → is_begin_dispute_resolution_tx s tx ≡ true
      → take 4 tx.input ≡ id
  unfolding is_begin_dispute_resolution_tx
  starts_with_selector tx id only accepted =
      only (take 4 tx.input) (by_method (s.method_by_id (take 4 tx.input)) tested)
    where
      by_method :
          (found : Option Bytes)
          → elim found [ none ↦ false | some raw_name ↦ bytes_eq raw_name begin_dispute_name ]
            ≡ true
          → found ≡ some begin_dispute_name
      by_method none h = cc
      by_method (some raw) h = ap some ((bytes_eq_iff raw begin_dispute_name).0 h)

      tested :
          elim (s.method_by_id (take 4 tx.input)) [
            | none ↦ false
            | some raw_name ↦ bytes_eq raw_name begin_dispute_name
          ]
          ≡ true
      tested = ground (arith, accepted)

  -- The chain's own test accepts exactly those of the transactions that staking's test accepts whose
  -- input is longer than the selector and decodes to inputs with a `sequencerAddr`, given that it
  -- looks for the selector of the contract.
  pub is_begin_dispute_resolution_tx_iff :
      (abi : Abi) (tx : Transaction)
      → s.selector begin_dispute_name ≡ some abi.selector
      → ((id : Bytes) → s.method_by_id id ≡ some begin_dispute_name → id ≡ abi.selector)
      → (Verify.is_begin_dispute_resolution_tx abi tx ≡ true) ↔ (
          (is_begin_dispute_resolution_tx s tx ≡ true)
          × (4 < length tx.input)
          × (abi.decode_inputs (drop 4 tx.input) ≡ some true))
  unfolding is_begin_dispute_resolution_tx
  is_begin_dispute_resolution_tx_iff abi tx selected only =
      let four : length abi.selector ≡ 4 =
        laws.selector-length begin_dispute_name abi.selector selected in
      (
        λ accepted.
            let (long, starts, decoded) = (chain_test_iff abi tx four).0 accepted in
            let short : ltb (length tx.input) 4 ≡ false = ground (arith, long) in
            (
              rw
                  (
                    short,
                    starts,
                    laws.method_by_id-selector begin_dispute_name abi.selector selected,
                  )
                  (bytes_eq_refl begin_dispute_name),
              long,
              decoded,
            ),
        λ (accepted, long, decoded).
            (chain_test_iff abi tx four).1
              (long, starts_with_selector tx abi.selector only accepted, decoded),
      )
