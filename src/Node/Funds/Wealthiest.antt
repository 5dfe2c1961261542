-- ===== src/Node/Funds/Wealthiest.antt =====
-- Which account the faucet is.
use availproject_op_evm.Prelude.{
  ℕ, ◌≤◌, ◌≡◌, ◌≢◌, inl, inr, refl, sym, ◌∙◌, true, false, Option, none, some, List, [], ◌∷◌, arith,
  ltb, Bool-cases, if◌then◌else◌,
}
use availproject_op_evm.Prelude.Bytes.{Bytes}
use availproject_op_evm.Node.Funds.{Account, has_key, richer, wealthiest}

module _ {Key : Type 0} (parse_key : Bytes → Option Key) where
  -- No account of the list with a key has more.
  abbrev pub AllBelow : ℕ → List Account → Type 0
  AllBelow top [] = Unit
  AllBelow top (acc ∷ accs) = (has_key parse_key acc ≡ true → acc.balance ≤ top) × AllBelow top accs

  -- What is found so far is at most what is found in the end.
  abbrev AtMost : Option Account → ℕ → Type 0
  AtMost none top = Unit
  AtMost (some best) top = best.balance ≤ top

  abbrev HasKeys : Option Account → Type 0
  HasKeys none = Unit
  HasKeys (some acc) = has_key parse_key acc ≡ true

  abbrev next : Option Account → Account → Option Account
  next best acc =
      if has_key parse_key acc then (if richer parse_key best acc then some acc else best) else best

  next-HasKeys : (best : Option Account) (acc : Account) → HasKeys best → HasKeys (next best acc)
  next-HasKeys best acc keys = elim (Bool-cases (has_key parse_key acc)) [
    | inr without ↦ rw without keys
    | inl key ↦ elim (Bool-cases (richer parse_key best acc)) [
      | inl more ↦ rw key (rw more key)
      | inr less ↦ rw key (rw less keys)
    ]
  ]

  next-AtMost :
      (best : Option Account) (acc : Account) (top : ℕ)
      → AtMost (next best acc) top
      → AtMost best top × (has_key parse_key acc ≡ true → acc.balance ≤ top)
  next-AtMost none acc top h = elim (Bool-cases (has_key parse_key acc)) [
    | inr without ↦ (tt, λ key. cc (sym without ∙ key))
    | inl key ↦ (tt, λ again. rw key at h)
  ]
  next-AtMost (some best) acc top h = elim (Bool-cases (has_key parse_key acc)) [
    | inr without ↦ (rw without at h, λ key. cc (sym without ∙ key))
    | inl key ↦ elim (Bool-cases (ltb best.balance acc.balance)) [
      | inl more ↦
          let bound : acc.balance ≤ top = rw more at (rw key at h) in
          (ground (arith, more, bound), λ again. bound)
      | inr less ↦
          let bound : best.balance ≤ top = rw less at (rw key at h) in
          (bound, λ again. ground (arith, less, bound))
    ]
  ]

  wealthiest-grows :
      (best : Option Account) (accs : List Account)
      → HasKeys best
      → HasKeys (wealthiest parse_key best accs)
        × ((top : ℕ)
            → AtMost (wealthiest parse_key best accs) top
            → AtMost best top × AllBelow top accs)
  unfolding wealthiest
  wealthiest-grows best [] keys = (keys, λ top h. (h, tt))
  wealthiest-grows best (acc ∷ accs) keys =
      let (keys', below) = wealthiest-grows (next best acc) accs (next-HasKeys best acc keys) in
      (
        keys',
        λ top h.
            let (at_most, rest) = below top h in
            let (old, new) = next-AtMost best acc top at_most in (old, (new, rest)),
      )

  some-stays : (best : Account) (accs : List Account) → wealthiest parse_key (some best) accs ≢ none
  unfolding wealthiest
  some-stays best [] e = cc e
  some-stays best (acc ∷ accs) e = elim (Bool-cases (has_key parse_key acc)) [
    | inr without ↦ some-stays best accs (rw without at e)
    | inl key ↦ elim (Bool-cases (ltb best.balance acc.balance)) [
      | inl more ↦ some-stays acc accs (rw more at (rw key at e))
      | inr less ↦ some-stays best accs (rw less at (rw key at e))
    ]
  ]

  -- No account of the list has a private key that can be read.
  abbrev pub NoKeys : List Account → Type 0
  NoKeys [] = Unit
  NoKeys (acc ∷ accs) = (has_key parse_key acc ≡ false) × NoKeys accs

  none-NoKeys : (accs : List Account) → wealthiest parse_key none accs ≡ none → NoKeys accs
  unfolding wealthiest
  none-NoKeys [] e = tt
  none-NoKeys (acc ∷ accs) e = elim (Bool-cases (has_key parse_key acc)) [
    | inr without ↦ (without, none-NoKeys accs (rw without at e))
    | inl key ↦ absurd (some-stays acc accs (rw key at e))
  ]

  abbrev pub IsWealthiest : Option Account → List Account → Type 0
  IsWealthiest none accs = NoKeys accs
  IsWealthiest (some acc) accs = (has_key parse_key acc ≡ true) × AllBelow acc.balance accs

  of_found :
      (found : Option Account) (accs : List Account)
      → wealthiest parse_key none accs ≡ found
      → IsWealthiest found accs
  of_found none accs e = none-NoKeys accs e
  of_found (some acc) accs e =
      let (keys, below) = rw e at (wealthiest-grows none accs tt) in
      (keys, (below acc.balance (omega arith)).1)

  -- The faucet is looked for among the accounts with a private key that can be read: one with the
  -- largest balance is found, and none only if there is no such account.
  pub wealthiest-IsWealthiest :
      (accs : List Account) → IsWealthiest (wealthiest parse_key none accs) accs
  wealthiest-IsWealthiest accs = of_found (wealthiest parse_key none accs) accs refl
