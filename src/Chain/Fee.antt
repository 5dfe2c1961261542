-- ===== src/Chain/Fee.antt =====
-- Fees of pkg/blockchain/blockchain.go: the base fee of the next block, and the rolling average of
-- the gas prices that the node reports.
pub mod BaseFee
pub mod Average
use availproject_op_evm.Prelude.{
  ℕ, ◌+◌, ◌-◌, ◌*◌, ◌/◌, ◌%◌, max, Bool, List, [], ◌∷◌, map, Outcome, ok, panic, ◌>>=◌, ltb, ◌==◌,
  length, sum, if◌then◌else◌,
}
use availproject_op_evm.Prelude.Int.{ℤ, pos, ◌+ℤ◌, ◌-ℤ◌, ◌*ℤ◌, div_euclid}
use availproject_op_evm.Chain.Types.{Header, Block, Transaction, Error, u64_mod}

abbrev pub default_base_fee_change_denom : ℕ
default_base_fee_change_denom = 8

-- Go's integer division stops the program at a divisor of zero.
abbrev pub div_or_panic : ℕ → ℕ → Outcome Error ℕ
div_or_panic a b = if b == 0 then panic else ok (a / b)

pub calc_base_fee_delta : ℕ → ℕ → ℕ → Outcome Error ℕ
calc_base_fee_delta gas_used_delta parent_gas_target base_fee = do
  y ← div_or_panic (base_fee * gas_used_delta % u64_mod) parent_gas_target
  ok (y / default_base_fee_change_denom)

-- What the chain's configuration says of base fees: whether the London fork is active at a
-- height, the genesis base fee of polygon-edge, and `Genesis.BaseFeeEM`.
pub record FeeConfig : Type 0 where
  pub london : ℕ → Bool
  pub genesis_base_fee : ℕ
  pub base_fee_em : ℕ

-- The two branches of `CalculateBaseFee` that move the fee.
pub raise_base_fee : Header → ℕ → Outcome Error ℕ
unfolding calc_base_fee_delta
raise_base_fee parent parent_gas_target = do
  base_fee_delta ←
      calc_base_fee_delta (parent.gas_used - parent_gas_target) parent_gas_target parent.base_fee
  ok ((parent.base_fee + max base_fee_delta 1) % u64_mod)

pub lower_base_fee : Header → ℕ → Outcome Error ℕ
unfolding calc_base_fee_delta
lower_base_fee parent parent_gas_target = do
  base_fee_delta ←
      calc_base_fee_delta (parent_gas_target - parent.gas_used) parent_gas_target parent.base_fee
  ok (max ((parent.base_fee + u64_mod - base_fee_delta) % u64_mod) 0)

pub london_base_fee : FeeConfig → Header → Outcome Error ℕ
london_base_fee config parent = do
  parent_gas_target ← div_or_panic parent.gas_limit config.base_fee_em
  if parent.gas_used == parent_gas_target
      then ok parent.base_fee
      else if ltb parent_gas_target parent.gas_used
      then raise_base_fee parent parent_gas_target
      else lower_base_fee parent parent_gas_target

pub calculate_base_fee : FeeConfig → Header → Outcome Error ℕ
unfolding london_base_fee
calculate_base_fee config parent =
    if config.london parent.number
    then london_base_fee config parent
    else ok config.genesis_base_fee

-- `gasPriceAverage`: big integers, so they do not wrap.
pub record GasPriceAverage : Type 0 where
  pub price : ℤ
  pub count : ℕ

abbrev pub no_average : GasPriceAverage
no_average = record { price = pos 0; count = 0 }

-- The new values are not empty here, and prices are not negative.
pub calc_arithmetic_average : List ℕ → ℕ → GasPriceAverage
calc_arithmetic_average new_values total = record {
  price = pos (total / length new_values);
  count = length new_values;
}

pub calc_rolling_average : GasPriceAverage → List ℕ → ℕ → GasPriceAverage
calc_rolling_average average new_values total = record {
  price =
      div_euclid (average.price *ℤ (pos average.count -ℤ pos (length new_values))) average.count
      +ℤ pos (total / average.count);
  count = length new_values + average.count;
}

pub update_gas_price_avg : GasPriceAverage → List ℕ → GasPriceAverage
unfolding calc_arithmetic_average calc_rolling_average
update_gas_price_avg average new_values =
    if average.count == 0
    then calc_arithmetic_average new_values (sum new_values)
    else calc_rolling_average average new_values (sum new_values)

-- `updateGasPriceAvgWithBlock`, over `tx.GetGasPrice(baseFee)` of polygon-edge.
pub update_gas_price_avg_with_block :
    (Transaction → ℕ → ℕ) → GasPriceAverage → Block → GasPriceAverage
unfolding update_gas_price_avg
update_gas_price_avg_with_block get_gas_price average block =
    if ltb (length block.transactions) 1
    then average
    else update_gas_price_avg average
        (map (λ t. get_gas_price t block.header.base_fee) block.transactions)
