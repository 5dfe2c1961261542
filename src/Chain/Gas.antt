-- ===== src/Chain/Gas.antt =====
-- The gas limit of a block: `calculateGasLimit` and `verifyGasLimit` of
-- pkg/blockchain/blockchain.go, with the wrap-around of `uint64` and `int64`.
pub mod Bounds
pub mod Target
use availproject_op_evm.Prelude.{
  ℕ, ◌+◌, ◌-◌, ◌*◌, ◌/◌, ◌%◌, ◌^◌, min, max, ok, err, Outcome, ltb, ◌==◌, if◌then◌else◌,
}
use availproject_op_evm.Chain.Types.{
  Header, Error, gas_used_exceeds_limit, invalid_gas_limit, u64_mod,
}

abbrev pub block_gas_target_divisor : ℕ
block_gas_target_divisor = 1024

-- `calculateGasLimit`, the configured target first; zero means that no target is set.
unfoldable pub calculate_gas_limit : ℕ → ℕ → ℕ
calculate_gas_limit block_gas_target parent_gas_limit =
    if block_gas_target == 0
    then parent_gas_limit
    else if parent_gas_limit == block_gas_target
    then block_gas_target
    else let delta = parent_gas_limit * 1 / block_gas_target_divisor in
      if ltb parent_gas_limit block_gas_target
      then min block_gas_target ((parent_gas_limit + delta) % u64_mod)
      else max block_gas_target (max ((parent_gas_limit + u64_mod - delta) % u64_mod) 0)

-- `diff := int64(a) - int64(b)`, negated if it is negative, read back as a `uint64`. The
-- difference is computed on the bit patterns, whose upper half stands for the negative numbers.
pub absolute_difference : ℕ → ℕ → ℕ
absolute_difference a b =
    let diff = (a + u64_mod - b) % u64_mod in
    if ltb diff (2 ^ 63) then diff else (u64_mod - diff) % u64_mod

pub verify_gas_limit : Header → Header → Outcome Error (Unit {0})
unfolding absolute_difference
verify_gas_limit header parent =
    if ltb header.gas_limit header.gas_used
    then err gas_used_exceeds_limit
    else if header.number == 0
    then ok tt
    else let limit = parent.gas_limit / block_gas_target_divisor in
      if ltb limit (absolute_difference parent.gas_limit header.gas_limit)
      then err invalid_gas_limit
      else ok tt
