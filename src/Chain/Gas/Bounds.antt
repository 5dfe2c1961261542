-- ===== src/Chain/Gas/Bounds.antt =====
-- What `verify_gas_limit` accepts, and that the limits which the node itself computes pass it.
use availproject_op_evm.Prelude.{
  ℕ, ◌+◌, ◌/◌, ◌^◌, ◌≤◌, ◌<◌, ◌≡◌, ◌↔◌, ◌⊎◌, min, max, inr, ok, arith,
}
use availproject_op_evm.Chain.Types.{Header, u64_mod}
use availproject_op_evm.Chain.Gas.{
  calculate_gas_limit, absolute_difference, verify_gas_limit, block_gas_target_divisor,
}

-- The limit moves by at most a 1024th of the parent's, in either direction.
abbrev pub IsNear : ℕ → ℕ → Type 0
IsNear parent limit =
    (parent ≤ limit + parent / block_gas_target_divisor)
    × (limit ≤ parent + parent / block_gas_target_divisor)

absolute_difference-near :
    (a b d : ℕ)
    → a < 2 ^ 63
    → b < 2 ^ 63
    → (absolute_difference a b ≤ d) ↔ ((a ≤ b + d) × (b ≤ a + d))
unfolding absolute_difference
absolute_difference-near a b d ha hb = ground arith

-- With both limits below 2 ^ 63, a header is accepted exactly when its gas used is within its
-- limit and it is the genesis or its limit is near the parent's.
pub verify_gas_limit_iff :
    (header parent : Header)
    → parent.gas_limit < 2 ^ 63
    → header.gas_limit < 2 ^ 63
    → (verify_gas_limit header parent ≡ ok tt) ↔ (
        (header.gas_used ≤ header.gas_limit)
        × ((header.number ≡ 0) ⊎ IsNear parent.gas_limit header.gas_limit))
unfolding verify_gas_limit
verify_gas_limit_iff header parent hp hh = ground arith

-- After a parent with a limit below 2 ^ 63, and with a target set, the computed limit is near the
-- parent's and lies between the parent's limit and the target, so it never overshoots.
pub calculate_gas_limit_bounds :
    (target parent : ℕ)
    → 0 < target
    → target < u64_mod
    → parent < 2 ^ 63
    → IsNear parent (calculate_gas_limit target parent)
      × (min parent target ≤ calculate_gas_limit target parent)
      × (calculate_gas_limit target parent ≤ max parent target)
unfolding calculate_gas_limit
calculate_gas_limit_bounds target parent hz ht hp = ground arith

calculate_gas_limit-IsNear :
    (target parent : ℕ)
    → target < 2 ^ 63
    → parent < 2 ^ 63
    → IsNear parent (calculate_gas_limit target parent)
      × (calculate_gas_limit target parent < 2 ^ 63)
unfolding calculate_gas_limit
calculate_gas_limit-IsNear target parent ht hp = ground arith

-- If the target and the parent's limit are below 2 ^ 63, a header that takes the computed limit,
-- and uses no more gas than that, passes the check against its parent.
pub verify_gas_limit-calculate_gas_limit :
    (target : ℕ) (header parent : Header)
    → target < 2 ^ 63
    → parent.gas_limit < 2 ^ 63
    → header.gas_limit ≡ calculate_gas_limit target parent.gas_limit
    → header.gas_used ≤ header.gas_limit
    → verify_gas_limit header parent ≡ ok tt
verify_gas_limit-calculate_gas_limit target header parent ht hp e used =
    let (near, small) = calculate_gas_limit-IsNear target parent.gas_limit ht hp in
    (verify_gas_limit_iff header parent hp (rw e small)).1 (used, inr (rw e near))
