-- ===== src/Node/Funds/TopUp.antt =====
-- When a node stops syncing, and how often it asks the faucet.
use availproject_op_evm.Prelude.{
  ℕ, ◌≤◌, ◌≡◌, ◌↔◌, refl, ap, ◌∙◌, Bool, true, false, Option, none, some, List, [], ◌∷◌, arith, ltb,
  ◌==◌, ==_iff, Bool-cases, inl, inr,
}
use availproject_op_evm.Node.Funds.{
  Account, Bank, Balance, known, no_state, balance_error, Funded, min_balance, ask_once,
  stop_by_balance, stop_by_header, sync_condition,
}

module _ (b : Bank) (alloc : List Account) where
  ask_once-false :
      (s : Funded b alloc) {done : Bool} {s' : Funded b alloc}
      → ask_once b alloc s ≡ some (done, s')
      → (done ≡ false) × (s'.balance_once ≡ true)
  unfolding ask_once
  ask_once-false s e = ground arith

  abbrev pub Suffices : Balance → Type 0
  Suffices (known n) = min_balance ≤ n
  Suffices no_state = ⊥
  Suffices balance_error = ⊥

  stop_by_balance_iff :
      (s : Funded b alloc) (funds : Balance)
      → (stop_by_balance b alloc s funds ≡ some (true, s)) ↔ Suffices funds
  stop_by_balance_iff s (known n) = elim (Bool-cases (ltb n min_balance)) [
    | inr enough ↦ (λ e. ground (arith, enough), λ h. rw enough refl)
    | inl short ↦ (
      λ e. absurd (cc (ask_once-false s (rw short at e)).0),
      λ h. absurd (ground (arith, short, h)),
    )
  ]
  stop_by_balance_iff s no_state = (λ e. cc e, λ h. absurd h)
  stop_by_balance_iff s balance_error = (λ e. cc e, λ h. absurd h)

  stop_by_header_iff :
      (number : ℕ) (s : Funded b alloc) (funds : Balance) (late : Option ℕ)
      → (stop_by_header b alloc number s funds late ≡ some (true, s))
        ↔ ((late ≡ some number) × Suffices funds)
  stop_by_header_iff number s funds none = (λ e. cc e, λ h. cc h.0)
  stop_by_header_iff number s funds (some n) = elim (Bool-cases (n == number)) [
    | inl here ↦ (
      λ e. (
        ap (λ k. some k) ((==_iff n number).0 here),
        (stop_by_balance_iff s funds).0 (rw here at e),
      ),
      λ h. rw here ((stop_by_balance_iff s funds).1 h.1),
    )
    | inr other ↦
        (λ e. cc (rw other at e), λ h. absurd (ground (arith, other, h.0, ==_iff n number)))
  ]

  -- A stop leaves the state as it was.
  stop_by_balance-keeps :
      (s s' : Funded b alloc) (funds : Balance)
      → stop_by_balance b alloc s funds ≡ some (true, s')
      → s' ≡ s
  stop_by_balance-keeps s s' (known n) e = elim (Bool-cases (ltb n min_balance)) [
    | inr enough ↦ cc (rw enough at e)
    | inl short ↦ absurd (cc (ask_once-false s (rw short at e)).0)
  ]
  stop_by_balance-keeps s s' no_state e = cc e
  stop_by_balance-keeps s s' balance_error e = cc e

  stop_by_header-keeps :
      (number : ℕ) (s s' : Funded b alloc) (funds : Balance) (late : Option ℕ)
      → stop_by_header b alloc number s funds late ≡ some (true, s')
      → s' ≡ s
  stop_by_header-keeps number s s' funds none e = cc e
  stop_by_header-keeps number s s' funds (some n) e = elim (Bool-cases (n == number)) [
    | inl here ↦ stop_by_balance-keeps s s' funds (rw here at e)
    | inr other ↦ cc (rw other at e)
  ]

  -- The condition answers that syncing stops, with whatever state it leaves, exactly at Avail's latest
  -- block on an account that had the minimal balance before the question; and whenever it answers so,
  -- it has changed nothing.
  pub sync_condition_iff :
      (number : ℕ) (s : Funded b alloc)
      → (((s' : Funded b alloc) × (sync_condition b alloc number s ≡ some (true, s')))
          ↔ ((b.latest s.world ≡ some number) × Suffices (b.balance s.world)))
        × ((s' : Funded b alloc) → sync_condition b alloc number s ≡ some (true, s') → s' ≡ s)
  unfolding sync_condition
  sync_condition_iff number s =
      let (only, if_so) = stop_by_header_iff number s (b.balance s.world) (b.latest s.world) in
      let keeps : (s' : Funded b alloc)
          → stop_by_header b alloc number s (b.balance s.world) (b.latest s.world) ≡ some (true, s')
          → s' ≡ s =
        λ s' e. stop_by_header-keeps number s s' (b.balance s.world) (b.latest s.world) e in
      (
        (
          λ (s', e). only (e ∙ ap (λ (t : Funded b alloc). some (true, t)) (keeps s' e)),
          λ h. (s, if_so h),
        ),
        keeps,
      )

  -- The condition over a run of Avail blocks.
  pub run_conditions : List ℕ → Funded b alloc → Option (Funded b alloc)
  run_conditions [] s = some s
  run_conditions (n ∷ ns) s = elim (sync_condition b alloc n s) [
    | none ↦ none
    | some r ↦ run_conditions ns r.1
  ]

  stop_by_balance-once :
      (s : Funded b alloc) (funds : Balance)
      → s.balance_once ≡ true
      → (done : Bool) × (stop_by_balance b alloc s funds ≡ some (done, s))
  unfolding ask_once
  stop_by_balance-once s (known n) once = elim (Bool-cases (ltb n min_balance)) [
    | inl short ↦ (false, rw short (rw once refl))
    | inr enough ↦ (true, rw enough refl)
  ]
  stop_by_balance-once s no_state once = (false, refl)
  stop_by_balance-once s balance_error once = (false, refl)

  stop_by_header-once :
      (number : ℕ) (s : Funded b alloc) (funds : Balance) (late : Option ℕ)
      → s.balance_once ≡ true
      → (done : Bool) × (stop_by_header b alloc number s funds late ≡ some (done, s))
  stop_by_header-once number s funds none once = (false, refl)
  stop_by_header-once number s funds (some n) once = elim (Bool-cases (n == number)) [
    | inl here ↦ let (done, e) = stop_by_balance-once s funds once in (done, rw here e)
    | inr other ↦ (false, rw other refl)
  ]

  -- Once the faucet was asked, it is not asked again: no later evaluation of the condition, for
  -- whatever Avail blocks, changes anything.
  pub run_conditions-once :
      (numbers : List ℕ) (s : Funded b alloc)
      → s.balance_once ≡ true
      → run_conditions numbers s ≡ some s
  unfolding run_conditions sync_condition
  run_conditions-once [] s once = refl
  run_conditions-once (n ∷ ns) s once =
      let (done, e) = stop_by_header-once n s (b.balance s.world) (b.latest s.world) once in
      rw (e, run_conditions) (run_conditions-once ns s once)
