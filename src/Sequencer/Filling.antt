-- ===== src/Sequencer/Filling.antt =====
-- consensus/avail/sequencer.go: the transactions that `writeTransactions` puts into a block are the
-- ones that the block's state comes from.
use availproject_op_evm.Prelude.{
  ℕ, zero, suc, ◌<◌, ◌≡◌, refl, sym, ap, subst, ◌∙◌, Bool, true, false, ◌||◌, Option, none, some,
  List, [], ◌∷◌, inl, inr, Bool-cases, Option-cases, arith,
}
use availproject_op_evm.Chain.Types.{Transaction}
use availproject_op_evm.Sequencer.{
  gas_limit_reached, recoverable, unknown_error, WriteResult, written, refused, Filler, FillerLaws,
  Filled, with_tx, after_write, fill, write_transactions,
}

module _ (e : Filler) where
  -- The transactions run one after the other, as every other node runs those of a block.
  pub data Runs : e.Transition → List Transaction → e.Transition → Type 0 where
    stop : {t : e.Transition} → Runs t [] t
    step :
        {t u v : e.Transition} {tx : Transaction} {txs : List Transaction}
        → e.write tx t ≡ written u
        → Runs u txs v
        → Runs t (tx ∷ txs) v

  -- None of them begins a dispute.
  abbrev pub AllOrdinary : (Transaction → Bool) → List Transaction → Type 0
  AllOrdinary is_begin [] = Unit
  AllOrdinary is_begin (tx ∷ txs) = (is_begin tx ≡ false) × AllOrdinary is_begin txs

  module _ (laws : FillerLaws e) (disabled : ℕ → Bool) (is_begin : Transaction → Bool) where
    after_write-total :
        (rest : e.Pool → e.Transition → Option (Filled e)) (p p' : e.Pool) (tx : Transaction)
        → e.peek p ≡ some (tx, p')
        → ((q : e.Pool) (u : e.Transition)
            → laws.pending q < laws.pending p
            → (out : Filled e) × (rest q u ≡ some out))
        → (r : WriteResult e.Transition)
        → (out : Filled e) × (after_write e rest tx p' r ≡ some out)
    after_write-total rest p p' tx peeked total (written u) =
        let ((txs, q, v), done) = total (e.pop tx p') u (laws.pop-pending p p' tx peeked) in
        ((tx ∷ txs, q, v), ap (with_tx e tx) done)
    after_write-total rest p p' tx peeked total (refused gas_limit_reached u) = (_, refl)
    after_write-total rest p p' tx peeked total (refused recoverable u) =
        total (e.demote tx p') u (laws.demote-pending p p' tx peeked)
    after_write-total rest p p' tx peeked total (refused unknown_error u) =
        total (e.drop_tx tx p') u (laws.drop_tx-pending p p' tx peeked)

    -- The three ways a round goes.
    fill-empty :
        (fuel : ℕ) (p : e.Pool) (t : e.Transition)
        → e.peek p ≡ none
        → fill e (suc fuel) disabled is_begin p t ≡ some ([], p, t)
    unfolding fill
    fill-empty fuel p t peeked = rw (peeked, fill) refl

    fill-stops :
        (fuel : ℕ) (p p' : e.Pool) (t : e.Transition) (tx : Transaction)
        → e.peek p ≡ some (tx, p')
        → (disabled fuel || is_begin tx) ≡ true
        → fill e (suc fuel) disabled is_begin p t ≡ some ([], p', t)
    unfolding fill
    fill-stops fuel p p' t tx peeked stops = rw (peeked, fill, stops) refl

    fill-goes :
        (fuel : ℕ) (p p' : e.Pool) (t : e.Transition) (tx : Transaction)
        → e.peek p ≡ some (tx, p')
        → (disabled fuel || is_begin tx) ≡ false
        → fill e (suc fuel) disabled is_begin p t
          ≡ after_write e (fill e fuel disabled is_begin) tx p' (e.write tx t)
    unfolding fill
    fill-goes fuel p p' t tx peeked goes = rw (peeked, fill, goes) refl

    round-total :
        (fuel : ℕ) (p : e.Pool) (t : e.Transition)
        → ((q : e.Pool) (u : e.Transition)
            → laws.pending q < laws.pending p
            → (out : Filled e) × (fill e fuel disabled is_begin q u ≡ some out))
        → (out : Filled e) × (fill e (suc fuel) disabled is_begin p t ≡ some out)
    round-total fuel p t total = elim (Option-cases (e.peek p)) [
      | inl peeked ↦ (([], p, t), fill-empty fuel p t peeked)
      | inr ((tx, p'), peeked) ↦ elim (Bool-cases (disabled fuel || is_begin tx)) [
        | inl stops ↦ (([], p', t), fill-stops fuel p p' t tx peeked stops)
        | inr goes ↦
            let (out, done) =
              after_write-total (fill e fuel disabled is_begin) p p' tx peeked total
                (e.write tx t) in
            (out, fill-goes fuel p p' t tx peeked goes ∙ done)
      ]
    ]

    fill-total :
        (fuel : ℕ) (p : e.Pool) (t : e.Transition)
        → laws.pending p < fuel
        → (out : Filled e) × (fill e fuel disabled is_begin p t ≡ some out)
    fill-total zero p t enough = absurd (omega arith)
    fill-total (suc fuel) p t enough =
        round-total fuel p t (λ q u fewer. fill-total fuel q u (omega arith))

    -- What a call has filled in is what its transactions lead to.
    abbrev IsSound : e.Transition → Option (Filled e) → Type 0
    IsSound t none = Unit
    IsSound t (some (txs, q, v)) = Runs t txs v × AllOrdinary is_begin txs

    with_tx-IsSound :
        (tx : Transaction) (t u : e.Transition) (o : Option (Filled e))
        → e.write tx t ≡ written u
        → is_begin tx ≡ false
        → IsSound u o
        → IsSound t (with_tx e tx o)
    with_tx-IsSound tx t u none wrote ordinary sound = tt
    with_tx-IsSound tx t u (some (txs, q, v)) wrote ordinary (runs, all) =
        (step wrote runs, (ordinary, all))

    after_write-IsSound :
        (rest : e.Pool → e.Transition → Option (Filled e)) (p : e.Pool) (t : e.Transition)
        (tx : Transaction)
        → is_begin tx ≡ false
        → ((q : e.Pool) (u : e.Transition) → IsSound u (rest q u))
        → (r : WriteResult e.Transition) → e.write tx t ≡ r
        → IsSound t (after_write e rest tx p r)
    after_write-IsSound rest p t tx ordinary sound (written u) wrote =
        with_tx-IsSound tx t u (rest (e.pop tx p) u) wrote ordinary (sound (e.pop tx p) u)
    after_write-IsSound rest p t tx ordinary sound (refused gas_limit_reached u) wrote =
        rw (laws.write-refused tx t u gas_limit_reached wrote) (stop, tt)
    after_write-IsSound rest p t tx ordinary sound (refused recoverable u) wrote =
        subst (λ k. IsSound k (rest (e.demote tx p) u))
          (laws.write-refused tx t u recoverable wrote) (sound (e.demote tx p) u)
    after_write-IsSound rest p t tx ordinary sound (refused unknown_error u) wrote =
        subst (λ k. IsSound k (rest (e.drop_tx tx p) u))
          (laws.write-refused tx t u unknown_error wrote) (sound (e.drop_tx tx p) u)

    fill-IsSound :
        (fuel : ℕ) (p : e.Pool) (t : e.Transition) → IsSound t (fill e fuel disabled is_begin p t)
    unfolding fill
    fill-IsSound zero p t = tt
    fill-IsSound (suc fuel) p t = elim (Option-cases (e.peek p)) [
      | inl peeked ↦ subst (IsSound t) (sym (fill-empty fuel p t peeked)) (stop, tt)
      | inr ((tx, p'), peeked) ↦ elim (Bool-cases (disabled fuel || is_begin tx)) [
        | inl stops ↦ subst (IsSound t) (sym (fill-stops fuel p p' t tx peeked stops)) (stop, tt)
        | inr goes ↦ subst (IsSound t) (sym (fill-goes fuel p p' t tx peeked goes)) (
            after_write-IsSound (fill e fuel disabled is_begin) p' t tx (ground (arith, goes))
              (λ q u. fill-IsSound fuel q u) (e.write tx t) refl)
      ]
    ]

    -- Filling a block ends, with one more round than the pool has transactions to offer, and the
    -- state after it is the one that the chosen transactions lead to from the state before, run in
    -- their order by anyone; none of them begins a dispute. It is so whenever the chain is disabled
    -- meanwhile.
    pub write_transactions-runs :
        (fuel : ℕ) (p : e.Pool) (t : e.Transition)
        → laws.pending (e.prepare p) < fuel
        → (txs : List Transaction) × (q : e.Pool) × (v : e.Transition) × (write_transactions e fuel
              disabled is_begin p t
            ≡ some (txs, q, v))
          × Runs t txs v
          × AllOrdinary is_begin txs
    unfolding write_transactions
    write_transactions-runs fuel p t enough =
        let ((txs, q, v), done) = fill-total fuel (e.prepare p) t enough in
        let (runs, all) = subst (IsSound t) done (fill-IsSound fuel (e.prepare p) t) in
        (txs, q, v, done, runs, all)
