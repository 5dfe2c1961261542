-- ===== src/Staking/Sequencers/Agreement.antt =====
-- The order of the sequencers: that nodes agree on it, and when the cache answers with another one.
use mathlib.Core.List.{Perm}
use mathlib.Core.List.Perm
use availproject_op_evm.Prelude.{
  ℕ, ◌≡◌, ◌≢◌, refl, false, some, none, List, Outcome, ok, err, panic, elem, perm-elem, arith,
}
use availproject_op_evm.Prelude.Sort.{sort, sort-perm, perm-sort}
use availproject_op_evm.Chain.Types.{Address}
use availproject_op_evm.Staking.Sequencers.{
  Error, address_order, Shuffle, randomized_get, Cache, get, contains, is_next_sequencer,
}

Addresses-set : IsSet (List Address)
Addresses-set = hlevel

-- Two nodes that read the same sequencers in any order, in the same window, get the same order,
-- and it lists the sequencers that were read.
pub randomized_get-agrees :
    (shuffle : Shuffle) (seed : ℕ) (xs ys : List Address)
    → ((zs : List Address) → Perm (shuffle seed zs) zs)
    → Perm xs ys
    → (order : List Address) × (randomized_get shuffle seed (ok xs) ≡ ok order)
      × (randomized_get shuffle seed (ok ys) ≡ ok order)
      × Perm order xs
unfolding randomized_get
randomized_get-agrees shuffle seed xs ys law p = (
  shuffle seed (sort address_order xs),
  refl,
  rw (perm-sort address_order Addresses-set p),
  Perm.trans (law (sort address_order xs)) (sort-perm address_order xs),
)

-- In a new window the cached querier asks anew: it says exactly which of the sequencers read are in
-- the list, and in the rest of the window gives the same order without asking.
pub contains-new_window :
    (shuffle : Shuffle) (c : Cache) (addr : Address) (seed : ℕ) (xs : List Address)
    → ((zs : List Address) → Perm (shuffle seed zs) zs)
    → c.last_seed ≢ seed
    → (c' : Cache) × (contains shuffle c addr seed (ok xs) ≡ (ok (elem addr xs), c'))
      × ((later : Outcome Error (List Address))
          → get shuffle c' seed later ≡ (ok (some (shuffle seed (sort address_order xs))), c'))
unfolding contains randomized_get
contains-new_window shuffle c addr seed xs law fresh = (
  record { last_seed = seed; last_sequencers = some (shuffle seed (sort address_order xs)) },
  ground (
    arith,
    perm-elem addr (Perm.trans (law (sort address_order xs)) (sort-perm address_order xs)),
  ),
  λ later. ground arith,
)

-- While the seed is still zero, as in the first window of Avail blocks, a new cache never asks: it
-- finds nobody among the sequencers, whoever they are, and to ask whose turn it is stops the
-- program.
pub new_cache-seed_zero :
    (shuffle : Shuffle) (addr : Address) (query : Outcome Error (List Address))
    → (contains shuffle (record { last_seed = 0; last_sequencers = none }) addr 0 query).0
        ≡ ok false
      × ((is_next_sequencer shuffle
            (record { last_seed = 0; last_sequencers = none })
            addr
            0
            query).0
          ≡ panic)
unfolding contains is_next_sequencer elem
new_cache-seed_zero shuffle addr query = (refl, refl)

-- If the query fails at the start of a window, the error is reported once: later in the window the
-- cache answers with the order of an earlier window, and no error.
pub get_stale :
    (shuffle : Shuffle) (c : Cache) (seed : ℕ) (later : Outcome Error (List Address)) (e : Error)
    → c.last_seed ≢ seed
    → (c' : Cache) × (get shuffle c seed (err e) ≡ (err e, c'))
      × (get shuffle c' seed later ≡ (ok c.last_sequencers, c'))
unfolding get randomized_get
get_stale shuffle c seed later e fresh = (record c { last_seed = seed }, ground arith, ground arith)
