-- ===== src/Chain/Gas/Target.antt =====
-- Block after block the gas limit reaches the configured target, and stays there.
use availproject_op_evm.Prelude.{ℕ, zero, suc, ◌+◌, ◌-◌, ◌^◌, ◌≤◌, ◌<◌, ◌≡◌, arith}
use availproject_op_evm.Chain.Gas.{calculate_gas_limit}

-- The limit after a number of blocks, each of which takes the computed limit.
pub limit_after : ℕ → ℕ → ℕ → ℕ
limit_after target zero limit = limit
limit_after target (suc blocks) limit = limit_after target blocks (calculate_gas_limit target limit)

-- From 1024 on, one block brings the limit at least one unit nearer, or has it at the target.
calculate_gas_limit-progress :
    (target limit : ℕ)
    → 1024 ≤ target
    → target < 2 ^ 63
    → 1024 ≤ limit
    → limit < 2 ^ 63
    → let next = calculate_gas_limit target limit in
      (1024 ≤ next)
      × (next < 2 ^ 63)
      × ((next - target) + (target - next) ≤ (limit - target) + (target - limit) - 1)
unfolding calculate_gas_limit
calculate_gas_limit-progress target limit ht ht' hl hl' = ground arith

-- As many blocks as the limit is units away from the target suffice to reach it, if both are at
-- least 1024 and below 2 ^ 63.
pub limit_after-target :
    (target blocks limit : ℕ)
    → 1024 ≤ target
    → target < 2 ^ 63
    → 1024 ≤ limit
    → limit < 2 ^ 63
    → (limit - target) + (target - limit) ≤ blocks
    → limit_after target blocks limit ≡ target
unfolding limit_after
limit_after-target target zero limit ht ht' hl hl' near = omega arith
limit_after-target target (suc blocks) limit ht ht' hl hl' near =
    let (low, high, nearer) = calculate_gas_limit-progress target limit ht ht' hl hl' in
    limit_after-target target blocks (calculate_gas_limit target limit) ht ht' low high
      (omega arith)
