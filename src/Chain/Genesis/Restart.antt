-- ===== src/Chain/Genesis/Restart.antt =====
-- A chain goes on from where it was when its process starts again.
use availproject_op_evm.Prelude.{ℕ, ◌+◌, ◌≡◌, refl, ◌∙◌, ap, Option, none, some, ok, arith, ==_refl}
use availproject_op_evm.Chain.Types.{Hash, Header, header_not_found, difficulty_not_found}
use availproject_op_evm.Chain.Monad.{Action, ◌>>=◌, or_error, >>=-ok}
use availproject_op_evm.Chain.Store.{StorageLaws, TakesHeads, LruLaws}
use availproject_op_evm.Chain.Writes.{
  Chain, read_header, read_total_difficulty, set_current_header, write_genesis_impl,
}
use availproject_op_evm.Chain.Writes.Reads.{
  HeadersAgree, DifficultiesAgree, loaded, read_header-cache, read_total_difficulty-stored,
}
use availproject_op_evm.Chain.Writes.Start.{started, write_genesis_impl-started}
use availproject_op_evm.Chain.Blocks.{Setting, Ledger, lift}
use availproject_op_evm.Chain.Blocks.ReadBack.{lift-ok}
use availproject_op_evm.Chain.Genesis.{write_genesis, load_head, compute_genesis}

module _ (x : Setting) (hlaws : LruLaws x.env.headers) where
  open x use {env}
  open env use {storage, compute_hash}

  -- A process over a database with a head, whatever head it has in memory.
  pub record IsRestart (s : Ledger x) (genesis_header head : Header) (td : ℕ) : Type 0 where
    pub head_hash : (storage.view s.chain.db).head_hash ≡ some head.hash
    pub genesis : (storage.view s.chain.db).canonical 0 ≡ some genesis_header.hash
    pub stored : loaded env s.chain head.hash ≡ some head
    pub difficulty : (storage.view s.chain.db).difficulty head.hash ≡ some td
    pub headers_agree : HeadersAgree env s.chain
    pub difficulties_agree : DifficultiesAgree env s.chain

  -- `ComputeGenesis` over a database with the same genesis sets the head and its total difficulty to
  -- those of the database, and writes nothing.
  pub compute_genesis-resumes :
      (s : Ledger x) (genesis_header head : Header) (td : ℕ)
      → IsRestart s genesis_header head td
      → (s' : Ledger x) × (compute_genesis x genesis_header s ≡ (ok tt, s'))
        × (s'.chain.current_header ≡ head)
        × (s'.chain.current_difficulty ≡ td)
        × (s'.chain.db ≡ s.chain.db)
        × (s'.genesis ≡ genesis_header.hash)
  unfolding compute_genesis load_head set_current_header
  compute_genesis-resumes s genesis_header head td r =
      let k : Hash = head.hash in
      let (cache, e, agree) = read_header-cache env hlaws s.chain k r.headers_agree in
      let c : Chain env = record s.chain { headers_cache = cache } in
      let (cache', e') = read_total_difficulty-stored env c k r.difficulties_agree in
      let t : Ledger x = record s { genesis = genesis_header.hash } in
      let u : Ledger x = record t { chain = c } in
      (
        record t {
          chain = record c {
            difficulty_cache = cache';
            current_header = head;
            current_difficulty = td;
          };
        },
        rw (r.head_hash, compute_genesis)
            (rw r.genesis (
              rw (==_refl genesis_header.hash) (
                >>=-ok (lift x (read_header env k)) after_header
                  (lift-ok x (read_header env k) t (e ∙ ap (λ (l : _). (ok l, c)) r.stored))
                ∙ >>=-ok (lift x (read_total_difficulty env k)) (after_td head)
                    (lift-ok x (read_total_difficulty env k) u e')
                ∙ rw r.difficulty refl))),
        refl,
        refl,
        refl,
        refl,
      )
    where
      after_td : Header → Option ℕ → Action (Ledger x) (Unit {0})
      after_td h found_td = do
        stored_td ← or_error found_td difficulty_not_found
        lift x (set_current_header env h stored_td)

      after_header : Option Header → Action (Ledger x) (Unit {0})
      after_header found_header = do
        h ← or_error found_header header_not_found
        found_td ← lift x (read_total_difficulty env head.hash)
        after_td h found_td

  -- On an empty database that takes its writes, `ComputeGenesis` makes the genesis the head; and any
  -- process that starts over that database, with caches that agree with it, has the genesis as its
  -- head with the same total difficulty, and writes nothing. The genesis has number zero, no parent,
  -- and its own hash.
  pub compute_genesis-again :
      StorageLaws storage
      → TakesHeads storage
      → (s : Ledger x) (genesis_header : Header) → (storage.view s.chain.db).head_hash ≡ none
      → genesis_header.number ≡ 0
      → genesis_header.parent_hash ≡ 0
      → compute_hash genesis_header ≡ genesis_header
      → (s' : Ledger x) × (compute_genesis x genesis_header s ≡ (ok tt, s'))
        × (s'.chain.current_header ≡ genesis_header)
        × (s'.genesis ≡ genesis_header.hash)
        × ((t : Ledger x)
            → t.chain.db ≡ s'.chain.db
            → HeadersAgree env t.chain
            → DifficultiesAgree env t.chain
            → (t' : Ledger x) × (compute_genesis x genesis_header t ≡ (ok tt, t'))
              × (t'.chain.current_header ≡ s'.chain.current_header)
              × (t'.chain.current_difficulty ≡ s'.chain.current_difficulty)
              × (t'.chain.db ≡ t.chain.db)
              × (t'.genesis ≡ s'.genesis))
  unfolding compute_genesis write_genesis
  compute_genesis-again laws takes s g empty first orphan hashed =
      let t : Ledger x = record s { genesis = g.hash } in
      let (d, e, facts) = write_genesis_impl-started env laws takes t.chain g orphan in
      (
        record t { chain = started env laws takes t.chain g d },
        rw (empty, compute_genesis) (lift-ok x (write_genesis_impl env g) t e),
        refl,
        refl,
        λ u same hs ds. compute_genesis-resumes u g g (0 + g.difficulty) (record {
          head_hash = rw same facts.head_hash;
          genesis = rw same (rw (← first) facts.canonical);
          stored = ground (arith, same, facts.header, hashed);
          difficulty = rw same facts.difficulty;
          headers_agree = hs;
          difficulties_agree = ds;
        }),
      )
