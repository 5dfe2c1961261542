-- ===== src/Chain/Writes/Start.antt =====
-- `writeGenesisImpl` on a database that takes its writes.
use availproject_op_evm.Prelude.{
  ℕ, ◌+◌, ◌≡◌, refl, true, [], ◌∷◌, ◌++◌, some, ok, arith, ◌==◌, ==_refl,
}
use availproject_op_evm.Chain.Types.{Header}
use availproject_op_evm.Chain.Store.{Storage, StorageLaws, TakesHeads}
use availproject_op_evm.Chain.Writes.{
  Env, Chain, new_event, set_current_header, parent_difficulty, advance_head, dispatch_event,
  write_genesis_impl,
}
use availproject_op_evm.Chain.Writes.Reads.{write-ok}

module _ (env : Env) (laws : StorageLaws env.storage) (takes : TakesHeads env.storage) where
  open env use {storage}

  -- What the database says of a header that became its head.
  pub record IsHead (d : Storage.Db storage) (h : Header) (td : ℕ) : Type 0 where
    pub head_hash : (storage.view d).head_hash ≡ some h.hash
    pub canonical : (storage.view d).canonical h.number ≡ some h.hash
    pub header : (storage.view d).header h.hash ≡ some h
    pub difficulty : (storage.view d).difficulty h.hash ≡ some td

  abbrev pub started : Chain env → Header → Storage.Db storage → Chain env
  started s h d = record s {
    db = d;
    current_header = h;
    current_difficulty = 0 + h.difficulty;
    stream = s.stream ++ (record new_event { new_chain = h ∷ [] } ∷ []);
  }

  pub write_genesis_impl-started :
      (s : Chain env) (h : Header)
      → h.parent_hash ≡ 0
      → (d : _) × (write_genesis_impl env h s ≡ (ok tt, started s h d))
        × IsHead d h (0 + h.difficulty)
  unfolding write_genesis_impl advance_head parent_difficulty set_current_header dispatch_event
  write_genesis_impl-started s h orphan =
      let is_orphan : (h.parent_hash == 0) ≡ true = rw orphan (==_refl 0) in
      let (d1, w1) = takes.takes_header h s.db in
      let (d2, w2) = takes.takes_head_hash h.hash d1 in
      let (d3, w3) = takes.takes_head_number h.number d2 in
      let (d4, w4) = takes.takes_canonical_hash h.number h.hash d3 in
      let (d5, w5) = takes.takes_total_difficulty h.hash (0 + h.difficulty) d4 in
      let l1 = laws.header_law h s.db d1 w1 in
      let l2 = laws.head_hash_law h.hash d1 d2 w2 in
      let l3 = laws.head_number_law h.number d2 d3 w3 in
      let l4 = laws.canonical_hash_law h.number h.hash d3 d4 w4 in
      let l5 = laws.total_difficulty_law h.hash (0 + h.difficulty) d4 d5 w5 in
      (
        d5,
        rw (write-ok env (storage.write_header h) s w1) (
            rw (write-ok env (storage.write_head_hash h.hash) (record s { db = d1 }) w2) (
              rw (write-ok env (storage.write_head_number h.number) (record s { db = d2 }) w3) (
                rw
                  (write-ok env (storage.write_canonical_hash h.number h.hash)
                    (record s { db = d3 }) w4)
                  (rw is_orphan (
                    rw
                      (write-ok env (storage.write_total_difficulty h.hash (0 + h.difficulty))
                        (record s { db = d4 }) w5)
                      refl))))),
        record {
          head_hash = rw l5 (rw l4 (rw l3 (rw l2 refl)));
          canonical = rw l5 (rw l4 (ground (arith, ==_refl h.number)));
          header = rw l5 (rw l4 (rw l3 (rw l2 (rw l1 (ground (arith, ==_refl h.hash))))));
          difficulty = rw l5 (ground (arith, ==_refl h.hash));
        },
      )
