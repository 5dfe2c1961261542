-- ===== src/Chain/Fee/Average.antt =====
-- The rolling average of gas prices: what it does at a steady price, and where it goes wrong.
use native.Mathlib.Nat.{
  add-mul-div_left, div-eq_of_lt, mul-div-le, mul-pos, le_of_mul-le-mul_left, lt_of_mul-lt-mul_left,
  lt-mul-div-succ,
}
use native.Mathlib.Decide.{dec_le}
use availproject_op_evm.Prelude.{
  ℕ, ◌+◌, ◌-◌, ◌*◌, ◌/◌, ◌≤◌, ◌<◌, ◌≡◌, ap, false, ◌==◌, List, [], ◌∷◌, length, sum, arith,
}
use availproject_op_evm.Prelude.Int.{
  ℤ, pos, negsuc, ◌+ℤ◌, ◌-ℤ◌, ◌*ℤ◌, ◌≤ℤ◌, ◌<ℤ◌, div_euclid, +ℤ_parts,
}
use availproject_op_evm.Chain.Fee.{calc_rolling_average, update_gas_price_avg}

-- Every price in the list is the same.
abbrev pub AllEqual : ℕ → List ℕ → Type 0
AllEqual p [] = Unit {0}
AllEqual p (x ∷ xs) = (x ≡ p) × AllEqual p xs

sum-AllEqual : (p : ℕ) (xs : List ℕ) → AllEqual p xs → sum xs ≡ length xs * p
sum-AllEqual p [] h = omega arith
sum-AllEqual p (x ∷ xs) h = grind (arith, sum-AllEqual p xs h.1)

-- The old average times the difference of the counts, where that is not negative and where it is.
scaled_pos : (p c n : ℕ) → n ≤ c → pos p *ℤ (pos c -ℤ pos n) ≡ pos (p * (c - n))
unfolding ◌-ℤ◌ ◌*ℤ◌
scaled_pos p c n h = ground arith

scaled_neg :
    (p c n : ℕ) → c < n → 0 < p * (n - c) → pos p *ℤ (pos c -ℤ pos n) ≡ negsuc (p * (n - c) - 1)
unfolding ◌-ℤ◌ ◌*ℤ◌
scaled_neg p c n h k = ground arith

-- The new price of the rolling average, by the two cases.
rolling_pos :
    (p c n s : ℕ)
    → n ≤ c
    → div_euclid (pos p *ℤ (pos c -ℤ pos n)) c +ℤ pos (s / c) ≡ pos (p * (c - n) / c + s / c)
unfolding ◌+ℤ◌
rolling_pos p c n s h = rw (scaled_pos p c n h) (ground arith)

rolling_neg :
    (p c n s : ℕ)
    → c < n
    → 0 < p * (n - c)
    → div_euclid (pos p *ℤ (pos c -ℤ pos n)) c +ℤ pos (s / c)
      ≡ negsuc ((p * (n - c) - 1) / c) +ℤ pos (s / c)
rolling_neg p c n s h k = rw (scaled_neg p c n h k)

update_gas_price_avg-rolling :
    (price count : ℕ) (new_values : List ℕ)
    → 0 < count
    → (update_gas_price_avg (record { price = pos price; count = count }) new_values).price
      ≡ div_euclid (pos price *ℤ (pos count -ℤ pos (length new_values))) count
        +ℤ pos (sum new_values / count)
unfolding update_gas_price_avg calc_rolling_average
update_gas_price_avg-rolling price count new_values h =
    rw (let e : (count == 0) ≡ false = ground arith in e)

-- If a block has more transactions than were averaged so far, the old price counts negatively: new
-- prices that sum to less than the old count, after an old average of at least one, make the
-- reported average negative.
pub update_gas_price_avg-negative :
    (price count : ℕ) (new_values : List ℕ)
    → 0 < price
    → 0 < count
    → count < length new_values
    → sum new_values < count
    → (update_gas_price_avg (record { price = pos price; count = count }) new_values).price <ℤ pos 0
update_gas_price_avg-negative price count new_values hp hc more low =
    rw
      (
        update_gas_price_avg-rolling price count new_values hc,
        rolling_neg price count (length new_values) (sum new_values) more scaled,
        div-eq_of_lt low,
      )
      (omega (arith, +ℤ_parts))
  where
    scaled : 0 < price * (length new_values - count)
    scaled = mul-pos hp (omega arith)

quotients_near :
    (a b p c : ℕ) → 0 < c → a + b ≡ p * c → (a / c + b / c ≤ p) × (p ≤ a / c + b / c + 1)
quotients_near a b p c h e = (
  le_of_mul-le-mul_left {k = c} (omega (arith, mul-div-le a c, mul-div-le b c)) h,
  let close : p < a / c + b / c + 2 =
        lt_of_mul-lt-mul_left c (omega (arith, lt-mul-div-succ a h, lt-mul-div-succ b h)) in
      omega arith,
)

quotient_pred : (x c : ℕ) → 0 < x → ((x - 1) / c ≤ x / c) × (x / c ≤ (x - 1) / c + 1)
quotient_pred x c h = grind arith

abbrev IsSteady : ℕ → ℤ → Type 0
IsSteady price next = (next ≤ℤ pos price) × (pos price ≤ℤ next +ℤ pos 1)

IsSteady-pos : (p c n : ℕ) → 0 < c → n ≤ c → IsSteady p (pos (p * (c - n) / c + n * p / c))
IsSteady-pos p c n h k =
    let near = quotients_near (p * (c - n)) (n * p) p c h total in
    (omega (arith, near.0), omega (arith, near.1, +ℤ_parts))
  where
    total : p * (c - n) + n * p ≡ p * c
    total = let e : c ≡ (c - n) + n = omega arith in grind (arith, ap (λ (t : ℕ). p * t) e)

IsSteady-neg :
    (p c n : ℕ)
    → 0 < c
    → c < n
    → 0 < p * (n - c)
    → IsSteady p (negsuc ((p * (n - c) - 1) / c) +ℤ pos (n * p / c))
IsSteady-neg p c n h k pos_scaled =
    omega (arith, quotient_pred (p * (n - c)) c pos_scaled, split, +ℤ_parts)
  where
    total : n * p ≡ p * (n - c) + c * p
    total = let e : n ≡ (n - c) + c = omega arith in grind (arith, ap (λ (t : ℕ). p * t) e)

    split : n * p / c ≡ p * (n - c) / c + p
    split = rw total (add-mul-div_left (p * (n - c)) p h)

-- Blocks in which every transaction pays the average price lower the average by one unit at most,
-- and never raise it.
pub update_gas_price_avg-steady :
    (price count : ℕ) (new_values : List ℕ)
    → 0 < price
    → 0 < count
    → AllEqual price new_values
    → let next =
        (update_gas_price_avg (record { price = pos price; count = count }) new_values).price in
      (next ≤ℤ pos price) × (pos price ≤ℤ next +ℤ pos 1)
update_gas_price_avg-steady price count new_values hp hc same =
    rw (update_gas_price_avg-rolling price count new_values hc, sum-AllEqual price new_values same)
      (elim (dec_le (length new_values) count) [
        | yes few ↦
            rw (rolling_pos price count (length new_values) (length new_values * price) few)
              (IsSteady-pos price count (length new_values) hc few)
        | no many ↦
            let scaled : 0 < price * (length new_values - count) = mul-pos hp (omega arith) in
            rw
              (rolling_neg price count (length new_values) (length new_values * price) (omega arith)
                scaled)
              (IsSteady-neg price count (length new_values) hc (omega arith) scaled)
      ])
