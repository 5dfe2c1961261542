-- ===== src/Chain/Store.antt =====
-- What the chain is stored in: polygon-edge's database behind its documented reads and writes, and
-- LRU caches in front of it.
use availproject_op_evm.Prelude.{ℕ, ◌≡◌, Option, some, List, ◌==◌, if◌then◌else◌}
use availproject_op_evm.Chain.Types.{Hash, Header}

-- `ReadForks` tells a missing list from another failure.
pub data Forks : Type 0 where
  found : List Hash → Forks
  not_found unreadable : Forks

-- What the reads of a database return.
pub record View : Type 0 where
  pub head_hash : Option Hash
  pub head_number : Option ℕ
  pub canonical : ℕ → Option Hash
  pub header : Hash → Option Header
  pub difficulty : Hash → Option ℕ
  pub forks : Forks

abbrev pub update : {A : Type 0} → (ℕ → Option A) → ℕ → A → ℕ → Option A
update f k v j = if k == j then some v else f j

-- A write that fails is `none`.
pub record Storage : Type 1 where
  pub Db : Type 0
  pub view : Db → View
  pub write_header : Header → Db → Option Db
  pub write_canonical_header : Header → ℕ → Db → Option Db
  pub write_head_hash : Hash → Db → Option Db
  pub write_head_number : ℕ → Db → Option Db
  pub write_canonical_hash : ℕ → Hash → Db → Option Db
  pub write_total_difficulty : Hash → ℕ → Db → Option Db
  pub write_forks : List Hash → Db → Option Db

module _ (s : Storage) where
  open s use {
    Db, view, write_header, write_canonical_header, write_head_hash, write_head_number,
    write_canonical_hash, write_total_difficulty, write_forks,
  }

  -- What each write changes if it succeeds.
  pub record StorageLaws : Type 0 where
    pub header_law :
        (h : Header) (d d' : Db)
        → write_header h d ≡ some d'
        → view d' ≡ record (view d) { header = update (view d).header h.hash h }
    pub canonical_header_law :
        (h : Header) (td : ℕ) (d d' : Db)
        → write_canonical_header h td d ≡ some d'
        → view d' ≡ record (view d) {
          head_hash = some h.hash;
          head_number = some h.number;
          canonical = update (view d).canonical h.number h.hash;
          header = update (view d).header h.hash h;
          difficulty = update (view d).difficulty h.hash td;
        }
    pub head_hash_law :
        (h : Hash) (d d' : Db)
        → write_head_hash h d ≡ some d'
        → view d' ≡ record (view d) { head_hash = some h }
    pub head_number_law :
        (n : ℕ) (d d' : Db)
        → write_head_number n d ≡ some d'
        → view d' ≡ record (view d) { head_number = some n }
    pub canonical_hash_law :
        (n : ℕ) (h : Hash) (d d' : Db)
        → write_canonical_hash n h d ≡ some d'
        → view d' ≡ record (view d) { canonical = update (view d).canonical n h }
    pub total_difficulty_law :
        (h : Hash) (td : ℕ) (d d' : Db)
        → write_total_difficulty h td d ≡ some d'
        → view d' ≡ record (view d) { difficulty = update (view d).difficulty h td }
    pub forks_law :
        (hs : List Hash) (d d' : Db)
        → write_forks hs d ≡ some d'
        → view d' ≡ record (view d) { forks = found hs }

module _ (s : Storage) where
  open s use {
    Db, write_header, write_head_hash, write_head_number, write_canonical_hash,
    write_total_difficulty,
  }

  -- The database takes the writes that a first header needs.
  pub record TakesHeads : Type 0 where
    pub takes_header : (h : Header) (d : Db) → (d' : Db) × (write_header h d ≡ some d')
    pub takes_head_hash : (h : Hash) (d : Db) → (d' : Db) × (write_head_hash h d ≡ some d')
    pub takes_head_number : (n : ℕ) (d : Db) → (d' : Db) × (write_head_number n d ≡ some d')
    pub takes_canonical_hash :
        (n : ℕ) (h : Hash) (d : Db) → (d' : Db) × (write_canonical_hash n h d ≡ some d')
    pub takes_total_difficulty :
        (h : Hash) (td : ℕ) (d : Db) → (d' : Db) × (write_total_difficulty h td d ≡ some d')

-- A cache of hashicorp's golang-lru: a hit refreshes the entry, an addition may evict others.
pub record Lru (V : Type 0) : Type 1 where
  pub Entries : Type 0
  pub find : Hash → Entries → Option V
  pub touch : Hash → Entries → Entries
  pub add : Hash → V → Entries → Entries

module _ {V : Type 0} (l : Lru V) where
  open l use {Entries, find, touch, add}

  -- Nothing is found that was not added.
  pub record LruLaws : Type 0 where
    pub find-touch : (k j : Hash) (c : Entries) → find j (touch k c) ≡ find j c
    pub find-add :
        (k j : Hash) (v u : V) (c : Entries)
        → find j (add k v c) ≡ some u
        → (if k == j then some v else find j c) ≡ some u
