-- ===== src/Chain/Fee/BaseFee.antt =====
-- How far, and in which direction, one block moves the base fee.
use native.Mathlib.Nat.{
  div-le_self, div-mul-le_self, mul-le-mul_left, le_of_mul-le-mul_right, le_trans,
}
use native.Mathlib.Decide.{dec_lt}
use availproject_op_evm.Prelude.{
  ℕ, ◌+◌, ◌-◌, ◌*◌, ◌/◌, ◌%◌, max, ◌≤◌, ◌<◌, ◌≡◌, refl, ◌⊎◌, inl, inr, true, ok, arith,
}
use availproject_op_evm.Chain.Types.{Header, u64_mod}
use availproject_op_evm.Chain.Fee.{
  FeeConfig, calc_base_fee_delta, raise_base_fee, lower_base_fee, calculate_base_fee,
}

-- The conditions under which no product or sum of the computation leaves `uint64`, for a parent
-- after the London fork whose gas limit gives a gas target.
pub record IsRegular (config : FeeConfig) (parent : Header) : Type 0 where
  pub active : config.london parent.number ≡ true
  pub em : 0 < config.base_fee_em
  pub target : 0 < parent.gas_limit / config.base_fee_em
  pub used : parent.gas_used ≤ parent.gas_limit
  pub room : parent.base_fee + parent.base_fee * parent.gas_limit + 1 < u64_mod

-- What the fee does from a parent to the next block, by the gas that the parent used.
abbrev pub FeeMoves : ℕ → ℕ → ℕ → ℕ → Type 0
FeeMoves target used fee next =
    ((used ≡ target) × (next ≡ fee))
    ⊎ ((target < used) × (fee < next))
    ⊎ ((used < target) × (next ≤ fee) × (fee ≤ next + fee / 8))

calc_base_fee_delta_lem :
    (delta target fee : ℕ)
    → 0 < target
    → fee * delta < u64_mod
    → calc_base_fee_delta delta target fee ≡ ok (fee * delta / target / 8)
unfolding calc_base_fee_delta
calc_base_fee_delta_lem delta target fee h k = ground (arith)

quotient-le : (p t f : ℕ) → 0 < t → p ≤ f * t → p / t ≤ f
quotient-le p t f h k = le_of_mul-le-mul_right (le_trans (div-mul-le_self p t) k) h

raise_base_fee-lt :
    (parent : Header) (target : ℕ)
    → 0 < target
    → parent.gas_used ≤ parent.gas_limit
    → parent.base_fee + parent.base_fee * parent.gas_limit + 1 < u64_mod
    → (fee : ℕ) × (raise_base_fee parent target ≡ ok fee) × (parent.base_fee < fee)
unfolding raise_base_fee
raise_base_fee-lt parent target pos used room = (
  (parent.base_fee + max (moved / target / 8) 1) % u64_mod,
  rw e,
  ground (arith, small, div-le_self moved target),
)
  where
    moved : ℕ
    moved = parent.base_fee * (parent.gas_used - target)

    small : moved ≤ parent.base_fee * parent.gas_limit
    small = mul-le-mul_left parent.base_fee (omega arith)

    e :
        calc_base_fee_delta (parent.gas_used - target) target parent.base_fee
        ≡ ok (moved / target / 8)
    e =
        calc_base_fee_delta_lem (parent.gas_used - target) target parent.base_fee pos
          (omega (arith, small))

lower_base_fee-le :
    (parent : Header) (target : ℕ)
    → 0 < target
    → parent.gas_used ≤ target
    → target ≤ parent.gas_limit
    → parent.base_fee + parent.base_fee * parent.gas_limit + 1 < u64_mod
    → (fee : ℕ) × (lower_base_fee parent target ≡ ok fee)
      × (fee ≤ parent.base_fee)
      × (parent.base_fee ≤ fee + parent.base_fee / 8)
unfolding lower_base_fee
lower_base_fee-le parent target pos used fits room = (
  max ((parent.base_fee + u64_mod - moved / target / 8) % u64_mod) 0,
  rw e,
  ground (arith, bound),
  ground (arith, bound),
)
  where
    moved : ℕ
    moved = parent.base_fee * (target - parent.gas_used)

    upper : moved ≤ parent.base_fee * target
    upper = mul-le-mul_left parent.base_fee (omega arith)

    small : parent.base_fee * target ≤ parent.base_fee * parent.gas_limit
    small = mul-le-mul_left parent.base_fee fits

    bound : moved / target ≤ parent.base_fee
    bound = quotient-le moved target parent.base_fee pos upper

    e :
        calc_base_fee_delta (target - parent.gas_used) target parent.base_fee
        ≡ ok (moved / target / 8)
    e =
        calc_base_fee_delta_lem (target - parent.gas_used) target parent.base_fee pos
          (omega (arith, upper, small))

-- After the London fork, and where the parent's gas limit gives a gas target and no computation
-- leaves `uint64`, the base fee is computed without a panic: it stays at a parent that used its
-- target, rises by at least one after a parent that used more, and after one that used less it does
-- not rise and falls by at most an eighth.
pub calculate_base_fee-FeeMoves :
    (config : FeeConfig) (parent : Header)
    → IsRegular config parent
    → (next : ℕ) × (calculate_base_fee config parent ≡ ok next)
      × FeeMoves (parent.gas_limit / config.base_fee_em) parent.gas_used parent.base_fee next
unfolding calculate_base_fee
calculate_base_fee-FeeMoves config parent r = elim (dec_lt used target) [
  | yes below ↦
      let (fee, e, le, ge) =
        lower_base_fee-le parent target r.target (omega arith)
          (div-le_self parent.gas_limit config.base_fee_em) r.room in
      (fee, ground (arith, r.active, r.em, e), inr (inr (below, le, ge)))
  | no above_or_at ↦ elim (dec_lt target used) [
    | yes above ↦
        let (fee, e, lt) = raise_base_fee-lt parent target r.target r.used r.room in
        (fee, ground (arith, r.active, r.em, e), inr (inl (above, lt)))
    | no below_or_at ↦ (parent.base_fee, ground (arith, r.active, r.em), inl (omega arith, refl))
  ]
]
  where
    used : ℕ
    used = parent.gas_used

    target : ℕ
    target = parent.gas_limit / config.base_fee_em
