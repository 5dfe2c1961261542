-- ===== src/Fraud/Dispute.antt =====
-- Disputes: when block production stops and resumes, and that a dispute is settled once.
use mathlib.Core.List.{Memᴰ}
use availproject_op_evm.Prelude.{
  ◌≡◌, ◌⊎◌, inl, inr, refl, sym, ap, subst, ◌∙◌, Outcome, Bool, true, false, Option, none, some,
  List, [], ◌∷◌, ok, panic, ==_refl, ==_iff, arith, Option-cases,
}
use availproject_op_evm.Chain.Types.{Address, Transaction, Block}
use availproject_op_evm.Extra.Encoding.{Wire}
use availproject_op_evm.Fraud.{
  Error, unless_stopped, Fraud, Services, set_chain_status, is_ready_to_slash,
  end_dispute_resolution, begin_dispute, consider_tx, watch_pool, check_and_set_fraud_block,
  slash_node, judge, check_and_slash,
}

-- What the loop over the pool has before it: how it recognises a transaction, and the transactions.
pub record Peek : Type 0 where
  pub is_begin_tx : Transaction → Option Bool
  pub is_watchtower : Address → Option Bool
  pub contract : Address
  pub txs : List Transaction

-- A transaction of the pool, from a watchtower to the staking contract, that begins a dispute.
abbrev pub Begins : Peek → Transaction → Type 0
Begins p tx =
    Memᴰ tx p.txs
    × (p.is_begin_tx tx ≡ some true)
    × (p.is_watchtower tx.from ≡ some true)
    × (tx.to ≡ some p.contract)

-- What the node does to the state of a dispute, in any order; `turn` is the sequencer, which writes
-- the shared flag on every block of Avail. A step shows whether the node looked into its pool.
pub data Step (w : Wire) : Option Peek → Fraud → Fraud → Type 0 where
  peek :
      (p : Peek) (f : Fraud)
      → Step w (some p) f (watch_pool p.is_begin_tx p.is_watchtower p.contract p.txs f).1
  inspect : (blks : List Block) (f : Fraud) → Step w none f (check_and_set_fraud_block w blks f).1
  slash : (s : Services) (f : Fraud) → Step w none f (check_and_slash w s f).1
  turn :
      (is_mine : Bool) (f : Fraud) → Step w none f (record f { block_production_enabled = is_mine })
  finish : (f : Fraud) → Step w none f (end_dispute_resolution f)

abbrev pub noted : Option Peek → List Peek → List Peek
noted none peeks = peeks
noted (some p) peeks = p ∷ peeks

-- A node that started as `NewFraudResolver` sets it, with its looks into the pool, the last one first.
pub data Reachable (w : Wire) : List Peek → Fraud → Type 0 where
  start : Reachable w [] (record {
    fraud_block = none;
    last_fraud_disputed_tx = none;
    chain_process_status = 1;
    block_production_enabled = false;
  })
  step :
      {peeks : List Peek} {f g : Fraud} (p : Option Peek)
      → Reachable w peeks f
      → Step w p f g
      → Reachable w (noted p peeks) g

-- The recorded transaction was found by one of the looks.
abbrev pub IsRecorded : List Peek → Fraud → Type 0
IsRecorded peeks f =
    (p : Peek) × (tx : Transaction) × Memᴰ p peeks
    × Begins p tx
    × (f.last_fraud_disputed_tx ≡ some tx.hash)

-- The chain is enabled, or it is disabled over a recorded transaction.
abbrev pub IsTraced : List Peek → Fraud → Type 0
IsTraced peeks f =
    (f.chain_process_status ≡ 1) ⊎ ((f.chain_process_status ≡ 0) × IsRecorded peeks f)

end-IsTraced : (peeks : List Peek) (f : Fraud) → IsTraced peeks (end_dispute_resolution f)
unfolding end_dispute_resolution set_chain_status
end-IsTraced peeks f = inl refl

consider_tx-cases :
    (is_begin_tx : Transaction → Option Bool) (is_watchtower : Address → Option Bool)
    (contract : Address) (tx : Transaction) (f : Fraud)
    → ((consider_tx is_begin_tx is_watchtower contract tx f ≡ (ok false, f))
        ⊎ (consider_tx is_begin_tx is_watchtower contract tx f ≡ (panic, f)))
      ⊎ ((is_begin_tx tx ≡ some true)
          × (is_watchtower tx.from ≡ some true)
          × (tx.to ≡ some contract)
          × (consider_tx is_begin_tx is_watchtower contract tx f ≡ (ok true, begin_dispute tx f)))
unfolding consider_tx set_chain_status
consider_tx-cases b v c tx f = elim (Option-cases tx.to) [
  | inl created ↦ ground (arith, created)
  | inr (to, sent) ↦ ground (arith, sent, ==_iff to c)
]

watch_pool-empty :
    (is_begin_tx : Transaction → Option Bool) (is_watchtower : Address → Option Bool)
    (contract : Address) (f : Fraud)
    → watch_pool is_begin_tx is_watchtower contract [] f ≡ (ok tt, f)
unfolding watch_pool
watch_pool-empty b v c f = refl

watch_pool-consider_tx :
    (is_begin_tx : Transaction → Option Bool) (is_watchtower : Address → Option Bool)
    (contract : Address) (tx : Transaction) (txs : List Transaction) (f : Fraud)
    (r : Outcome Error Bool × Fraud)
    → consider_tx is_begin_tx is_watchtower contract tx f ≡ r
    → watch_pool is_begin_tx is_watchtower contract (tx ∷ txs) f
      ≡ unless_stopped r (watch_pool is_begin_tx is_watchtower contract txs)
unfolding watch_pool
watch_pool-consider_tx b v c tx txs f r e = ap (λ x. unless_stopped x (watch_pool b v c txs)) e

-- A look into the pool changes nothing, or stops the chain over a transaction in it.
watch_pool-cases :
    (is_begin_tx : Transaction → Option Bool) (is_watchtower : Address → Option Bool)
    (contract : Address) (txs : List Transaction) (f : Fraud)
    → ((watch_pool is_begin_tx is_watchtower contract txs f).1 ≡ f)
      ⊎ ((tx : Transaction) × Begins
            (record {
              is_begin_tx = is_begin_tx;
              is_watchtower = is_watchtower;
              contract = contract;
              txs = txs;
            })
            tx
          × ((watch_pool is_begin_tx is_watchtower contract txs f).1 ≡ begin_dispute tx f))
watch_pool-cases b v c [] f = inl (ap (λ r. r.1) (watch_pool-empty b v c f))
watch_pool-cases b v c (t ∷ txs) f = elim (consider_tx-cases b v c t f) [
  | inr (begins, from_watchtower, to_contract, stops) ↦ inr (
    t,
    (Memᴰ.head refl, begins, from_watchtower, to_contract),
    rw (watch_pool-consider_tx b v c t txs f _ stops) refl,
  )
  | inl (inr panics) ↦ inl (rw (watch_pool-consider_tx b v c t txs f _ panics) refl)
  | inl (inl passed) ↦ elim (watch_pool-cases b v c txs f) [
    | inl same ↦ inl (rw (watch_pool-consider_tx b v c t txs f _ passed) same)
    | inr (tx, (m, begins, watches, to), stops) ↦ inr (
      tx,
      (Memᴰ.tail m, begins, watches, to),
      rw (watch_pool-consider_tx b v c t txs f _ passed) stops,
    )
  ]
]

begin_dispute-IsTraced :
    (p : Peek) (peeks : List Peek) (tx : Transaction) (f : Fraud)
    → Begins p tx
    → IsTraced (p ∷ peeks) (begin_dispute tx f)
unfolding set_chain_status
begin_dispute-IsTraced p peeks tx f begins = inr (refl, (p, tx, Memᴰ.head refl, begins, refl))

-- A recorded transaction stays recorded after another look.
later-IsTraced :
    (p : Peek) (peeks : List Peek) (f : Fraud) → IsTraced peeks f → IsTraced (p ∷ peeks) f
later-IsTraced p peeks f (inl enabled) = inl enabled
later-IsTraced p peeks f (inr (disabled, (q, tx, m, begins, last))) =
    inr (disabled, (q, tx, Memᴰ.tail m, begins, last))

peek-IsTraced :
    (p : Peek) (peeks : List Peek) (f : Fraud)
    → IsTraced peeks f
    → IsTraced (p ∷ peeks) (watch_pool p.is_begin_tx p.is_watchtower p.contract p.txs f).1
peek-IsTraced p peeks f h =
    elim (watch_pool-cases p.is_begin_tx p.is_watchtower p.contract p.txs f) [
      | inl same ↦ subst (IsTraced (p ∷ peeks)) (sym same) (later-IsTraced p peeks f h)
      | inr (tx, begins, stops) ↦
          subst (IsTraced (p ∷ peeks)) (sym stops) (begin_dispute-IsTraced p peeks tx f begins)
    ]

check_and_set_fraud_block-keeps :
    (w : Wire) (blks : List Block) (f : Fraud)
    → ((check_and_set_fraud_block w blks f).1.chain_process_status ≡ f.chain_process_status)
      × ((check_and_set_fraud_block w blks f).1.last_fraud_disputed_tx ≡ f.last_fraud_disputed_tx)
unfolding check_and_set_fraud_block
check_and_set_fraud_block-keeps w [] f = (refl, refl)
check_and_set_fraud_block-keeps w (blk ∷ blks) f =
    ground (arith, check_and_set_fraud_block-keeps w blks f)

inspect-IsTraced :
    (w : Wire) (peeks : List Peek) (blks : List Block) (f : Fraud)
    → IsTraced peeks f
    → IsTraced peeks (check_and_set_fraud_block w blks f).1
inspect-IsTraced w peeks blks f (inl enabled) =
    inl ((check_and_set_fraud_block-keeps w blks f).0 ∙ enabled)
inspect-IsTraced w peeks blks f (inr (disabled, (p, tx, m, begins, last))) =
    let (status, disputed) = check_and_set_fraud_block-keeps w blks f in
    inr (status ∙ disabled, (p, tx, m, begins, disputed ∙ last))

-- `CheckAndSlash` either leaves the state as it is or ends the dispute; with blocks produced it
-- ends it.
check_and_slash-cases :
    (w : Wire) (s : Services) (f : Fraud)
    → ((check_and_slash w s f).1 ≡ f) ⊎ ((check_and_slash w s f).1 ≡ end_dispute_resolution f)
unfolding check_and_slash judge slash_node
check_and_slash-cases w s f = ground arith

-- In every state that a node reaches, whatever it does in whatever order, the chain is enabled; or it
-- is disabled, and the recorded hash is that of a transaction that one of its looks into the pool had
-- before it, from a watchtower to the staking contract, that begins a dispute.
pub Reachable-IsTraced :
    (w : Wire) (peeks : List Peek) (f : Fraud) → Reachable w peeks f → IsTraced peeks f
Reachable-IsTraced w _ f start = inl refl
Reachable-IsTraced w _ f (step {peeks} _ r (peek p g)) =
    peek-IsTraced p peeks g (Reachable-IsTraced w peeks g r)
Reachable-IsTraced w _ f (step {peeks} _ r (inspect blks g)) =
    inspect-IsTraced w peeks blks g (Reachable-IsTraced w peeks g r)
Reachable-IsTraced w _ f (step {peeks} _ r (slash s g)) = elim (check_and_slash-cases w s g) [
  | inl same ↦ subst (IsTraced peeks) (sym same) (Reachable-IsTraced w peeks g r)
  | inr ended ↦ subst (IsTraced peeks) (sym ended) (end-IsTraced peeks g)
]
Reachable-IsTraced w _ f (step {peeks} _ r (turn b g)) = Reachable-IsTraced w peeks g r
Reachable-IsTraced w _ f (step {peeks} _ r (finish g)) = end-IsTraced peeks g

-- Once `CheckAndSlash` has produced blocks, the dispute is over: production is enabled again, no
-- block is suspected, and another call, whatever it could do, produces nothing and changes nothing.
pub check_and_slash-once :
    (w : Wire) (s s' : Services) (f f' : Fraud) (blk : Block) (blks : List Block)
    → check_and_slash w s f ≡ (ok (blk ∷ blks), f')
    → (f'.block_production_enabled ≡ true)
      × (f'.fraud_block ≡ none)
      × (check_and_slash w s' f' ≡ (ok [], f'))
unfolding check_and_slash judge slash_node end_dispute_resolution set_chain_status is_ready_to_slash
check_and_slash-once w s s' f f' blk blks done = ground arith

-- A transaction over which there was a dispute does not stop the chain again: while it is the only
-- one in the pool, however often the loop peeks at it, the state stays as it is.
pub watch_pool-disputed :
    (is_begin_tx : Transaction → Option Bool) (is_watchtower : Address → Option Bool)
    (contract : Address) (tx : Transaction) (txs : List Transaction) (f : Fraud)
    → f.last_fraud_disputed_tx ≡ some tx.hash
    → ((t : Transaction) → Memᴰ t txs → t.hash ≡ tx.hash)
    → (watch_pool is_begin_tx is_watchtower contract txs f).1 ≡ f
unfolding watch_pool consider_tx
watch_pool-disputed b v c tx [] f last same = refl
watch_pool-disputed b v c tx (t ∷ txs) f last same = ground (
  arith,
  ==_refl tx.hash,
  same t (Memᴰ.head refl),
  watch_pool-disputed b v c tx txs f last (λ u m. same u (Memᴰ.tail m)),
)

-- The chain stops only over a transaction of the pool that is sent to the staking contract by a
-- watchtower and begins a dispute: if production was enabled and is not any more, the transaction
-- now recorded is such a one.
pub watch_pool-stops :
    (is_begin_tx : Transaction → Option Bool) (is_watchtower : Address → Option Bool)
    (contract : Address) (txs : List Transaction) (f : Fraud)
    → f.block_production_enabled ≡ true
    → (watch_pool is_begin_tx is_watchtower contract txs f).1.block_production_enabled ≡ false
    → (tx : Transaction) × Memᴰ tx txs
      × (is_begin_tx tx ≡ some true)
      × (is_watchtower tx.from ≡ some true)
      × (tx.to ≡ some contract)
      × ((watch_pool is_begin_tx is_watchtower contract txs f).1.last_fraud_disputed_tx
          ≡ some tx.hash)
unfolding watch_pool set_chain_status
watch_pool-stops b v c [] f on off = let absurd : ⊥ = ground (arith, on, off) in elim absurd [ ]
watch_pool-stops b v c (t ∷ txs) f on off = elim (consider_tx-cases b v c t f) [
  | inr (begins, from_watchtower, to_contract, stops) ↦
      rw (watch_pool-consider_tx b v c t txs f _ stops)
        (t, Memᴰ.head refl, begins, from_watchtower, to_contract, refl)
  | inl (inr panics) ↦
      let absurd : ⊥ = ground (arith, watch_pool-consider_tx b v c t txs f _ panics, on, off) in
      elim absurd [ ]
  | inl (inl passed) ↦
      let off' : (watch_pool b v c txs f).1.block_production_enabled ≡ false =
        ground (arith, watch_pool-consider_tx b v c t txs f _ passed, off) in
      let (tx, m, begins, watches, to, recorded) = watch_pool-stops b v c txs f on off' in
      rw (watch_pool-consider_tx b v c t txs f _ passed)
        (tx, Memᴰ.tail m, begins, watches, to, recorded)
]
