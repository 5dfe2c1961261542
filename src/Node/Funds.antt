-- ===== src/Node/Funds.antt =====
-- How a node gets the funds that it wants before it takes part: pkg/faucet/account.go, and
-- `Initialize`, `ensureAccountBalance` and `syncConditionFn` of consensus/avail/avail.go.
pub mod TopUp
pub mod Wealthiest
use availproject_op_evm.Prelude.{
  ℕ, ◌*◌, ◌-◌, ◌^◌, Bool, true, false, not, Option, none, some, List, [], ◌∷◌, Outcome, ok, err,
  panic, ◌>>=◌, or_fail, ltb, ◌==◌, if◌then◌else◌,
}
use availproject_op_evm.Prelude.Bytes.{Bytes}
use availproject_op_evm.Chain.Types.{Address}

-- An entry of the genesis allocation of polygon-edge.
pub record Account : Type 0 where
  pub address : Address
  pub balance : ℕ
  pub private_key : Bytes

pub data Error : Type 0 where
  account_not_found key_invalid balance_failed not_enough_balance transfer_failed : Error

module _ {Key : Type 0} (parse_key : Bytes → Option Key) where
  -- A candidate: an account with a private key that can be read.
  abbrev pub has_key : Account → Bool
  has_key acc = elim (acc.private_key) [
    | [] ↦ false
    | b ∷ bs ↦ elim (parse_key (b ∷ bs)) [ none ↦ false | some key ↦ true ]
  ]

  abbrev pub richer : Option Account → Account → Bool
  richer none acc = true
  richer (some best) acc = ltb best.balance acc.balance

  -- The loop of `FindAccount` over the allocation, in the order in which Go ranges over it.
  unfoldable pub wealthiest : Option Account → List Account → Option Account
  wealthiest best [] = best
  wealthiest best (acc ∷ accs) =
      wealthiest (if has_key acc then (if richer best acc then some acc else best) else best) accs

  -- `FindAccount`.
  unfoldable pub find_account : List Account → Outcome Error Key
  unfolding wealthiest
  find_account alloc = elim (wealthiest none alloc) [
    | none ↦ err account_not_found
    | some acc ↦ or_fail (parse_key acc.private_key) key_invalid
  ]

-- `minBalance`: 15 ETH.
abbrev pub min_balance : ℕ
min_balance = 15 * 10 ^ 18

-- What `GetAccountBalance` says: there may be no state for an account.
pub data Balance : Type 0 where
  known : ℕ → Balance
  no_state balance_error : Balance

-- A transfer to the node's own account, with the gas and the gas price of the program.
pub record Transfer : Type 0 where
  pub value : ℕ
  pub gas_price : ℕ
  pub gas : ℕ

-- What the functions ask of the rest of the node: the balance of its account at the head of the
-- chain, the number of Avail's latest header, and a transfer that a key signs and that is put into
-- the pool.
pub record Bank : Type 1 where
  pub World : Type 0
  pub Key : Type 0
  pub parse_key : Bytes → Option Key
  pub balance : World → Balance
  pub latest : World → Option ℕ
  pub transfer : Key → Transfer → World → Bool × World

module _ (b : Bank) (alloc : List Account) where
  open b use {World, Key, parse_key, balance, latest, transfer}

  -- `Initialize`: a missing state is no error.
  unfoldable pub initialize : World → Outcome Error (Unit {0})
  initialize v = elim (balance v) [
    | no_state ↦ ok tt
    | balance_error ↦ err balance_failed
    | known n ↦
        if ltb n min_balance
        then elim (find_account parse_key alloc) [
          | ok key ↦ ok tt
          | err account_not_found ↦ err not_enough_balance
          | err e ↦ err e
          | panic ↦ panic
        ]
        else ok tt
  ]

  abbrev pub transferred : Bool × World → Outcome Error (Unit {0}) × World
  transferred (true, v) = (ok tt, v)
  transferred (false, v) = (err transfer_failed, v)

  abbrev pub top_up_from : Key → ℕ → World → Outcome Error (Unit {0}) × World
  top_up_from key current v =
      if ltb current min_balance
      then transferred (
          transfer key (record { value = min_balance - current; gas_price = 5000; gas = 1000000 })
            v)
      else (ok tt, v)

  -- `ensureAccountBalance`: the faucet is looked for first, also where no transfer is needed.
  unfoldable pub ensure_account_balance : World → Outcome Error (Unit {0}) × World
  ensure_account_balance v = elim (find_account parse_key alloc) [
    | ok key ↦ elim (balance v) [
      | known n ↦ top_up_from key n v
      | no_state ↦ top_up_from key 0 v
      | balance_error ↦ (err balance_failed, v)
    ]
    | err e ↦ (err e, v)
    | panic ↦ (panic, v)
  ]

  -- The world, and whether `balanceOnce` has run.
  pub record Funded : Type 0 where
    pub world : World
    pub balance_once : Bool

  abbrev pub after_top_up : Outcome Error (Unit {0}) × World → Option (Bool × Funded)
  after_top_up (ok u, v) = some (false, record { world = v; balance_once = true })
  after_top_up (err e, v) = none
  after_top_up (panic, v) = none

  -- The case of too small a balance: one transfer, the first time; `none` is a panic.
  unfoldable pub ask_once : Funded → Option (Bool × Funded)
  unfolding ensure_account_balance
  ask_once s =
      if s.balance_once then some (false, s) else after_top_up (ensure_account_balance s.world)

  abbrev pub stop_by_balance : Funded → Balance → Option (Bool × Funded)
  stop_by_balance s (known funds) = if ltb funds min_balance then ask_once s else some (true, s)
  stop_by_balance s no_state = some (false, s)
  stop_by_balance s balance_error = some (false, s)

  abbrev pub stop_by_header : ℕ → Funded → Balance → Option ℕ → Option (Bool × Funded)
  stop_by_header number s funds none = some (false, s)
  stop_by_header number s funds (some n) =
      if n == number then stop_by_balance s funds else some (false, s)

  -- `syncConditionFn`, for the Avail block of a number.
  unfoldable pub sync_condition : ℕ → Funded → Option (Bool × Funded)
  sync_condition number s = stop_by_header number s (balance s.world) (latest s.world)
