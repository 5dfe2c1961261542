-- ===== src/Chain/Archive.antt =====
-- What the chain stores of whole blocks, in the same database as the headers: bodies, receipts, and
-- for each transaction the block that it is in.
use availproject_op_evm.Prelude.{ℕ, ◌≡◌, Option, some, List}
use availproject_op_evm.Chain.Types.{Hash, Header, Transaction}
use availproject_op_evm.Chain.Store.{Storage, update}

-- polygon-edge's `types.Body`.
pub record Body : Type 0 where
  pub transactions : List Transaction
  pub uncles : List Header

-- What the reads return.
pub record Contents (Receipt : Type 0) : Type 0 where
  pub body : Hash → Option Body
  pub receipts : Hash → Option (List Receipt)
  pub tx_lookup : Hash → Option Hash

module _ (s : Storage) (Receipt : Type 0) where
  open s use {Db, view, write_canonical_header}

  pub record Archive : Type 0 where
    pub contents : Db → Contents Receipt
    pub write_body : Hash → Body → Db → Option Db
    pub write_receipts : Hash → List Receipt → Db → Option Db
    pub write_tx_lookup : Hash → Hash → Db → Option Db

module _ (s : Storage) (Receipt : Type 0) (a : Archive s Receipt) where
  open s use {Db, view, write_canonical_header}
  open a use {contents, write_body, write_receipts, write_tx_lookup}

  -- A write changes what it names and nothing else.
  pub record ArchiveLaws : Type 0 where
    pub body_law :
        (k : Hash) (b : Body) (d d' : Db)
        → write_body k b d ≡ some d'
        → (view d' ≡ view d)
          × (contents d' ≡ record (contents d) { body = update (contents d).body k b })
    pub receipts_law :
        (k : Hash) (rs : List Receipt) (d d' : Db)
        → write_receipts k rs d ≡ some d'
        → (view d' ≡ view d)
          × (contents d' ≡ record (contents d) { receipts = update (contents d).receipts k rs })
    pub tx_lookup_law :
        (k block : Hash) (d d' : Db)
        → write_tx_lookup k block d ≡ some d'
        → (view d' ≡ view d)
          × (contents d'
              ≡ record (contents d) { tx_lookup = update (contents d).tx_lookup k block })
    pub canonical_header_contents :
        (h : Header) (td : ℕ) (d d' : Db)
        → write_canonical_header h td d ≡ some d'
        → contents d' ≡ contents d

  -- The database takes every write.
  pub record IsReliable : Type 0 where
    pub takes_body : (k : Hash) (b : Body) (d : Db) → (d' : Db) × (write_body k b d ≡ some d')
    pub takes_receipts :
        (k : Hash) (rs : List Receipt) (d : Db) → (d' : Db) × (write_receipts k rs d ≡ some d')
    pub takes_tx_lookup :
        (k block : Hash) (d : Db) → (d' : Db) × (write_tx_lookup k block d ≡ some d')
    pub takes_canonical_header :
        (h : Header) (td : ℕ) (d : Db) → (d' : Db) × (write_canonical_header h td d ≡ some d')
