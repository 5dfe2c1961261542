-- ===== src/Staking/Sequencers.antt =====
-- pkg/staking/sequencers_rand.go and sequencers_delayed.go: the order of the active sequencers for
-- a window of Avail blocks, and the cache in front of it. A query's result and the shuffle of Go's
-- package math/rand are arguments. An answer `none` is Go's nil slice.
pub mod Agreement
use availproject_op_evm.Prelude.{
  ℕ, ◌≡◌, ◌⊎◌, Bool, true, false, not, ◌||◌, Option, none, some, List, [], ◌∷◌, Outcome, ok, err,
  panic, ◌>>=◌, leb, ◌==◌, elem, if◌then◌else◌, arith,
}
use availproject_op_evm.Prelude.Sort.{TotalOrder, sort}
use availproject_op_evm.Chain.Types.{Address}

pub data Error : Type 0 where
  query_failed : Error

pub leb_total : (a b : ℕ) → (leb a b ≡ true) ⊎ (leb b a ≡ true)
leb_total a b = ground arith

pub leb_antisymm : (a b : ℕ) → leb a b ≡ true → leb b a ≡ true → a ≡ b
leb_antisymm a b h k = ground arith

pub leb_trans : (a b c : ℕ) → leb a b ≡ true → leb b c ≡ true → leb a c ≡ true
leb_trans a b c h k = ground arith

-- `bytes.Compare` on addresses, which are numbers of 20 bytes.
abbrev pub address_order : TotalOrder Address
address_order = record {
  leb = leb;
  leb_total = leb_total;
  leb_antisymm = leb_antisymm;
  leb_trans = leb_trans;
}

-- `rng.Shuffle` after `rand.NewSource(seed)`: it swaps elements by numbers that only the seed and
-- the length decide, so it is a function of the seed and the list.
abbrev pub Shuffle : Type 0
Shuffle = ℕ → List Address → List Address

-- `randomizedActiveSequencersQuerier.Get`.
pub randomized_get : Shuffle → ℕ → Outcome Error (List Address) → Outcome Error (List Address)
randomized_get shuffle seed query = do addrs ← query; ok (shuffle seed (sort address_order addrs))

-- `cachingRandomizedActiveSequencersQuerier`.
pub record Cache : Type 0 where
  pub last_seed : ℕ
  pub last_sequencers : Option (List Address)

-- Go's zero value, which the constructor leaves.
abbrev pub new_cache : Cache
new_cache = record { last_seed = 0; last_sequencers = none }

-- What is stored after a query under a new seed: the seed in any case, the list if there is one.
abbrev pub remember :
    Cache → ℕ → Outcome Error (List Address) → Outcome Error (Option (List Address)) × Cache
remember c seed (ok sequencers) =
    (ok (some sequencers), record { last_seed = seed; last_sequencers = some sequencers })
remember c seed (err e) = (err e, record c { last_seed = seed })
remember c seed panic = (panic, record c { last_seed = seed })

pub get :
    Shuffle
    → Cache
    → ℕ
    → Outcome Error (List Address)
    → Outcome Error (Option (List Address)) × Cache
get shuffle c seed query =
    if c.last_seed == seed
    then (ok c.last_sequencers, c)
    else remember c seed (randomized_get shuffle seed query)

abbrev pub is_nil : Option (List Address) → Bool
is_nil none = true
is_nil (some xs) = false

abbrev pub members : Option (List Address) → List Address
members none = []
members (some xs) = xs

abbrev pub search_in :
    Address → Outcome Error (Option (List Address)) × Cache → Outcome Error Bool × Cache
search_in addr (ok xs, c) = (ok (elem addr (members c.last_sequencers)), c)
search_in addr (err e, c) = (err e, c)
search_in addr (panic, c) = (panic, c)

pub contains :
    Shuffle → Cache → Address → ℕ → Outcome Error (List Address) → Outcome Error Bool × Cache
unfolding get
contains shuffle c addr seed query =
    if is_nil c.last_sequencers || not (c.last_seed == seed)
    then search_in addr (get shuffle c seed query)
    else (ok (elem addr (members c.last_sequencers)), c)

-- `IsNextSequencer` of consensus/avail/sequencer.go reads the first entry of the answer.
abbrev pub is_first : Address → List Address → Outcome Error Bool
is_first node_addr [] = panic
is_first node_addr (x ∷ xs) = ok (x == node_addr)

abbrev pub first_of_answer : Address → Outcome Error (Option (List Address)) → Outcome Error Bool
first_of_answer node_addr (ok answer) = is_first node_addr (members answer)
first_of_answer node_addr (err e) = ok false
first_of_answer node_addr panic = panic

pub is_next_sequencer :
    Shuffle → Cache → Address → ℕ → Outcome Error (List Address) → Outcome Error Bool × Cache
unfolding get
is_next_sequencer shuffle c node_addr seed query =
    let (answer, c') = get shuffle c seed query in (first_of_answer node_addr answer, c')
