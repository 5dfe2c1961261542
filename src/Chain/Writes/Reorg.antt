-- ===== src/Chain/Writes/Reorg.antt =====
-- Which canonical hashes a reorganisation between two heads of the same height leaves as they were.
use availproject_op_evm.Prelude.{
  ℕ, suc, ◌+◌, ◌||◌, ◌≡◌, ◌≢◌, refl, ◌∙◌, false, true, [], ◌∷◌, ◌++◌, Option, some, Option-cases,
  Outcome, ok, err, panic, Bool-cases, ==_iff, inl, inr, ltb, ◌==◌, arith,
}
use availproject_op_evm.Chain.Types.{Hash, Header, Error, difficulty_not_found}
use availproject_op_evm.Chain.Monad.{Action, resume, ◌>>=◌, ◌>>◌, or_error, pure, >>=-ok}
use availproject_op_evm.Chain.Store.{StorageLaws, Forks, found, not_found, unreadable, update}
use availproject_op_evm.Chain.Writes.{
  Env, Chain, write, read_total_difficulty, parent_difficulty, set_current_header, advance_head,
  write_fork, set_kind, set_difficulty, reorg_event, record_old, switch_head, handle_reorg, go_down,
  meet, lower, ends_in, without, for_each, all_but_last,
}

module _ (env : Env) (n : ℕ) where
  open env use {storage, difficulties}

  abbrev canonical_at : Chain env → Option Hash
  canonical_at s = (storage.view s.db).canonical n

  -- The call leaves the canonical hash of that number as it was, also if it fails.
  abbrev pub Keeps : {A : Type 0} → Action (Chain env) A → Type 0
  Keeps m = (s : Chain env) → canonical_at (m s).1 ≡ canonical_at s

  Keeps->>= :
      {A B : Type 0} (m : Action (Chain env) A) (f : A → Action (Chain env) B)
      → Keeps m
      → ((a : A) → Keeps (f a))
      → Keeps (m >>= f)
  Keeps->>= {A} m f first rest s = after (m s).0 (m s).1 (first s)
    where
      after :
          (r : Outcome Error A) (s' : Chain env)
          → canonical_at s' ≡ canonical_at s
          → canonical_at (resume f (r, s')).1 ≡ canonical_at s
      after (ok a) s' e = rest a s' ∙ e
      after (err x) s' e = e
      after panic s' e = e

  write-Keeps :
      (f : storage.Db → Option storage.Db)
      → ((d d' : storage.Db)
          → f d ≡ some d'
          → (storage.view d').canonical n ≡ (storage.view d).canonical n)
      → Keeps (write env f)
  write-Keeps f law s = elim (Option-cases (f s.db)) [
    | inl failed ↦ ground (arith, failed)
    | inr (d, taken) ↦ rw (taken, write) (law s.db d taken)
  ]

  -- A write that leaves those canonical hashes alone, and calls that do so after it.
  Keeps-write>> :
      {B : Type 0} (f : storage.Db → Option storage.Db) (k : Action (Chain env) B)
      → ((d d' : storage.Db)
          → f d ≡ some d'
          → (storage.view d').canonical n ≡ (storage.view d).canonical n)
      → Keeps k
      → Keeps (write env f >> k)
  Keeps-write>> f k law rest = Keeps->>= (write env f) (λ _. k) (write-Keeps f law) (λ _. rest)

  read_total_difficulty-Keeps : (k : Hash) → Keeps (read_total_difficulty env k)
  unfolding read_total_difficulty
  read_total_difficulty-Keeps k s = ground arith

  parent_difficulty-Keeps : (h : Header) → Keeps (parent_difficulty env h)
  unfolding parent_difficulty
  parent_difficulty-Keeps h s = elim (Bool-cases (h.parent_hash == 0)) [
    | inl none_needed ↦ rw (none_needed, parent_difficulty) refl
    | inr needed ↦
        rw (needed, parent_difficulty)
          (Keeps->>= (read_total_difficulty env h.parent_hash)
            (λ td. or_error td difficulty_not_found) (read_total_difficulty-Keeps h.parent_hash)
            (λ td s'. ground arith) s)
  ]

  update-other : (f : ℕ → Option Hash) (k : ℕ) (v : Hash) → n ≢ k → update f k v n ≡ f n
  update-other f k v apart = ground (arith, ==_iff k n)

  advance_head-Keeps :
      StorageLaws storage → (h : Header) → n ≢ h.number → Keeps (advance_head env h)
  unfolding advance_head set_current_header
  advance_head-Keeps laws h apart =
      Keeps-write>> (storage.write_head_hash h.hash) set_number
        (λ d d' e. rw (laws.head_hash_law h.hash d d' e) refl)
        (Keeps-write>> (storage.write_head_number h.number) set_canonical
          (λ d d' e. rw (laws.head_number_law h.number d d' e) refl)
          (Keeps-write>> (storage.write_canonical_hash h.number h.hash)
            (parent_difficulty env h >>= set_difficulty_of)
            (λ d d' e.
              rw (laws.canonical_hash_law h.number h.hash d d' e)
                (update-other (storage.view d).canonical h.number h.hash apart))
            (Keeps->>= (parent_difficulty env h) set_difficulty_of (parent_difficulty-Keeps h)
              last)))
    where
      set_difficulty_of : ℕ → Action (Chain env) ℕ
      set_difficulty_of td =
          write env (storage.write_total_difficulty h.hash (td + h.difficulty))
          >> (set_current_header env h (td + h.difficulty) >> pure (td + h.difficulty))

      set_canonical : Action (Chain env) ℕ
      set_canonical =
          write env (storage.write_canonical_hash h.number h.hash)
          >> (parent_difficulty env h >>= set_difficulty_of)

      set_number : Action (Chain env) ℕ
      set_number = write env (storage.write_head_number h.number) >> set_canonical

      last : (td : ℕ) → Keeps (set_difficulty_of td)
      last td =
          Keeps-write>> (storage.write_total_difficulty h.hash (td + h.difficulty))
            (set_current_header env h (td + h.difficulty) >> pure (td + h.difficulty))
            (λ d d' e. rw (laws.total_difficulty_law h.hash (td + h.difficulty) d d' e) refl)
            (λ s. refl)

  write_fork-Keeps : StorageLaws storage → (h : Header) → Keeps (write_fork env h)
  unfolding write_fork
  write_fork-Keeps laws h s = go (storage.view s.db).forks refl
    where
      go :
          (f : Forks)
          → (storage.view s.db).forks ≡ f
          → canonical_at (write_fork env h s).1 ≡ canonical_at s
      go (found forks) e =
          rw (e, write_fork)
            (write-Keeps (storage.write_forks (without env h.parent_hash forks ++ (h.hash ∷ [])))
              (λ d d' done.
                rw (laws.forks_law (without env h.parent_hash forks ++ (h.hash ∷ [])) d d' done)
                  refl)
              s)
      go not_found e =
          rw (e, write_fork)
            (write-Keeps (storage.write_forks (h.hash ∷ []))
              (λ d d' done. rw (laws.forks_law (h.hash ∷ []) d d' done) refl) s)
      go unreadable e = rw (e, write_fork) refl

  go_down-level :
      (fuel limit : ℕ) (h : Header) (s : Chain env)
      → ltb limit h.number ≡ false
      → go_down env (suc fuel) limit h [] s ≡ (ok (h, []), s)
  unfolding go_down
  go_down-level fuel limit h s level = rw (level, go_down) refl

  lower-level :
      (limit : ℕ) (h : Header) (s : Chain env)
      → ltb limit h.number ≡ false
      → lower env limit h s ≡ (ok (h, false), s)
  unfolding lower
  lower-level limit h s level = rw (level, lower) refl

  -- Between heads of the same height no header is read: the loop collects the old head alone.
  meet-level :
      (fuel : ℕ) (old new : Header) (s : Chain env)
      → ltb new.number old.number ≡ false
      → ltb old.number new.number ≡ false
      → (old.hash == new.hash) ≡ false
      → meet env (suc (suc fuel)) true old new [] s ≡ (ok (old ∷ []), s)
  unfolding meet ends_in
  meet-level fuel old new s up down differ =
      rw (differ, meet)
        (>>=-ok (lower env new.number old)
            (λ (old', moved). lower env old'.number new >>= λ (new', moved').
              meet env (suc fuel) (moved || moved') old' new' (record_old env old' []))
            (lower-level new.number old s up)
          ∙ >>=-ok (lower env old.number new)
              (λ (new', moved').
                meet env (suc fuel) (false || moved') old new' (record_old env old []))
              (lower-level old.number new s down)
          ∙ rw differ refl)

  handle_reorg-level :
      (fuel : ℕ) (old new : Header) (s : Chain env)
      → old.number ≡ new.number
      → old.hash ≢ new.hash
      → handle_reorg env (suc (suc fuel)) old new s ≡ switch_head env old new (old ∷ []) [] s
  unfolding handle_reorg
  handle_reorg-level fuel old new s height apart =
      >>=-ok (go_down env (suc (suc fuel)) new.number old [])
        (λ (old', old_chain).
          go_down env (suc (suc fuel)) old'.number new [] >>= λ (new', new_chain).
          meet env (suc (suc fuel)) true old' new' old_chain >>= λ all_old.
          switch_head env old new all_old new_chain)
        (go_down-level (suc fuel) new.number old s up)
      ∙ >>=-ok (go_down env (suc (suc fuel)) old.number new [])
          (λ (new', new_chain). meet env (suc (suc fuel)) true old new' [] >>= λ all_old.
            switch_head env old new all_old new_chain)
          (go_down-level (suc fuel) old.number new s down)
      ∙ >>=-ok (meet env (suc (suc fuel)) true old new [])
          (λ all_old. switch_head env old new all_old []) (meet-level fuel old new s up down differ)
    where
      up : ltb new.number old.number ≡ false
      up = ground (arith, height)

      down : ltb old.number new.number ≡ false
      down = ground (arith, height)

      differ : (old.hash == new.hash) ≡ false
      differ = ground (arith, ==_iff old.hash new.hash)

  switch_head-Keeps :
      StorageLaws storage
      → (old new : Header) → n ≢ new.number
      → Keeps (switch_head env old new (old ∷ []) [])
  unfolding switch_head all_but_last for_each
  switch_head-Keeps laws old new apart s =
      Keeps->>= (write_fork env old) (λ u. advance_head env new >>= finish)
        (write_fork-Keeps laws old)
        (λ u.
          Keeps->>= (advance_head env new) finish (advance_head-Keeps laws new apart)
            (λ td s'. refl))
        (record s {
          event = record s.event {
            old_chain = s.event.old_chain ++ (old ∷ []);
            new_chain = s.event.new_chain ++ (new ∷ []);
          };
        })
    where
      finish : ℕ → Action (Chain env) (Unit {0})
      finish td = set_kind env reorg_event >> set_difficulty env td

-- A reorganisation between two different heads of the same height changes the canonical hash of
-- that height alone, whatever it ends with: every other number keeps the block that it named.
pub handle_reorg-keeps_below :
    (env : Env)
    → StorageLaws env.storage
    → (fuel n : ℕ) (old new : Header) (s : Chain env) → old.number ≡ new.number
    → old.hash ≢ new.hash
    → n ≢ new.number
    → (env.storage.view (handle_reorg env (suc (suc fuel)) old new s).1.db).canonical n
      ≡ (env.storage.view s.db).canonical n
handle_reorg-keeps_below env laws fuel n old new s height differ apart =
    rw (handle_reorg-level env n fuel old new s height differ)
      (switch_head-Keeps env n laws old new apart s)
