-- ===== src/Sequencer.antt =====
-- consensus/avail/sequencer.go: how a sequencer chooses the transactions of a block. What it does on
-- each Avail block is in Sequencer/Round.
pub mod Filling
pub mod Mining
pub mod Distribution
pub mod Round
pub mod Turn
use availproject_op_evm.Prelude.{
  ℕ, zero, suc, ◌-◌, ◌+◌, ◌/◌, ◌%◌, ◌<◌, ◌≡◌, Bool, true, false, not, ◌&&◌, ◌||◌, Option, none,
  some, List, [], ◌∷◌, Outcome, ok, err, panic, ltb, ◌==◌, if◌then◌else◌,
}
use availproject_op_evm.Chain.Types.{Hash, Header, Transaction, Block}

-- The errors of a transition that `writeTransactions` tells apart.
pub data WriteError : Type 0 where
  gas_limit_reached recoverable unknown_error : WriteError

pub data WriteResult (T : Type 0) : Type 0 where
  written : T → WriteResult T
  refused : WriteError → T → WriteResult T

-- polygon-edge's transaction pool, and a transition on which transactions are run. `Peek` takes the
-- transaction off the queue of executable ones; `Pop` lets the next one of its account in.
pub record Filler : Type 1 where
  pub Pool : Type 0
  pub prepare : Pool → Pool
  pub peek : Pool → Option (Transaction × Pool)
  pub pop : Transaction → Pool → Pool
  pub demote : Transaction → Pool → Pool
  pub drop_tx : Transaction → Pool → Pool
  pub Transition : Type 0
  pub write : Transaction → Transition → WriteResult Transition

module _ (e : Filler) where
  open e use {Pool, prepare, peek, pop, demote, drop_tx, Transition, write}

  -- A transaction that was peeked at and then popped, demoted or dropped is no longer among those
  -- that the pool will still offer, and a transaction that is refused is undone.
  pub record FillerLaws : Type 0 where
    pub pending : Pool → ℕ
    pub pop-pending :
        (p p' : Pool) (tx : Transaction) → peek p ≡ some (tx, p') → pending (pop tx p') < pending p
    pub demote-pending :
        (p p' : Pool) (tx : Transaction)
        → peek p ≡ some (tx, p')
        → pending (demote tx p') < pending p
    pub drop_tx-pending :
        (p p' : Pool) (tx : Transaction)
        → peek p ≡ some (tx, p')
        → pending (drop_tx tx p') < pending p
    pub write-refused :
        (tx : Transaction) (t t' : Transition) (reason : WriteError)
        → write tx t ≡ refused reason t'
        → t' ≡ t

  abbrev pub Filled : Type 0
  Filled = List Transaction × Pool × Transition

  abbrev pub with_tx : Transaction → Option Filled → Option Filled
  with_tx tx none = none
  with_tx tx (some (txs, p, t)) = some (tx ∷ txs, p, t)

  -- The round of a transaction that was run, on the rest of the loop.
  abbrev pub after_write :
      (Pool → Transition → Option Filled)
      → Transaction
      → Pool
      → WriteResult Transition
      → Option Filled
  after_write rest tx p (written t) = with_tx tx (rest (pop tx p) t)
  after_write rest tx p (refused gas_limit_reached t) = some ([], p, t)
  after_write rest tx p (refused recoverable t) = rest (demote tx p) t
  after_write rest tx p (refused unknown_error t) = rest (drop_tx tx p) t

  -- The loop of `writeTransactions`. The first argument is the fuel, the second what
  -- `IsChainDisabled` answers in each round, as another goroutine may disable the chain at any time.
  unfoldable pub fill : ℕ → (ℕ → Bool) → (Transaction → Bool) → Pool → Transition → Option Filled
  fill zero disabled is_begin p t = none
  fill (suc fuel) disabled is_begin p t = elim (peek p) [
    | none ↦ some ([], p, t)
    | some (tx, p') ↦
        if disabled fuel || is_begin tx
        then some ([], p', t)
        else after_write (fill fuel disabled is_begin) tx p' (write tx t)
  ]

  -- `writeTransactions`.
  unfoldable pub write_transactions :
      ℕ → (ℕ → Bool) → (Transaction → Bool) → Pool → Transition → Option Filled
  unfolding fill
  write_transactions fuel disabled is_begin p t = fill fuel disabled is_begin (prepare p) t
