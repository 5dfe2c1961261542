-- ===== src/Chain/Writes/Side.antt =====
-- The list of forks that `writeFork` keeps.
use availproject_op_evm.Prelude.{
  ◌≡◌, refl, ◌||◌, ◌&&◌, not, List, [], ◌∷◌, ◌++◌, some, ok, elem, ◌==◌, ==_iff, arith,
}
use availproject_op_evm.Chain.Types.{Hash, Header}
use availproject_op_evm.Chain.Store.{StorageLaws, found}
use availproject_op_evm.Chain.Writes.{Env, Chain, without, write_fork}
use availproject_op_evm.Chain.Writes.Reads.{write-ok}

module _ (env : Env) where
  open env use {storage}

  elem-without :
      (k parent h : Hash) (forks : List Hash)
      → elem k (without env parent forks ++ (h ∷ []))
        ≡ ((k == h) || (elem k forks && not (k == parent)))
  unfolding without elem
  elem-without k parent h [] = ground arith
  elem-without k parent h (fork ∷ forks) =
      ground
        (arith, ==_iff k fork, ==_iff fork parent, ==_iff k parent, elem-without k parent h forks)

  -- Where the database has a list of forks and takes the new one, the fork of the header is listed
  -- afterwards, its parent no longer is unless it is the header itself, and every other hash is
  -- listed as before.
  pub write_fork-elem :
      StorageLaws storage
      → (s : Chain env) (h : Header) (forks : List Hash) (d : _)
      → (storage.view s.db).forks ≡ found forks
      → storage.write_forks (without env h.parent_hash forks ++ (h.hash ∷ [])) s.db ≡ some d
      → (s' : Chain env) × (forks' : List Hash) × (write_fork env h s ≡ (ok tt, s'))
        × ((storage.view s'.db).forks ≡ found forks')
        × ((k : Hash)
            → elem k forks' ≡ ((k == h.hash) || (elem k forks && not (k == h.parent_hash))))
  unfolding write_fork
  write_fork-elem laws s h forks d listed taken = (
    record s { db = d },
    without env h.parent_hash forks ++ (h.hash ∷ []),
    rw (listed, write_fork)
        (write-ok env (storage.write_forks (without env h.parent_hash forks ++ (h.hash ∷ []))) s
          taken),
    rw (laws.forks_law (without env h.parent_hash forks ++ (h.hash ∷ [])) s.db d taken) refl,
    λ k. elem-without k h.parent_hash h.hash forks,
  )
