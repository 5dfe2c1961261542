-- ===== src/Chain/Writes.antt =====
-- The reads behind caches and the writes of pkg/blockchain/blockchain.go: the fast path onto the
-- head, forks, and the reorganisation of the chain.
pub mod Reads
pub mod Head
pub mod Reorg
pub mod Side
pub mod Start
use availproject_op_evm.Prelude.{
  ℕ, zero, suc, ◌+◌, Bool, true, false, not, ◌||◌, Option, none, some, List, [], ◌∷◌, ◌++◌, Outcome,
  ok, err, ltb, ◌==◌, if◌then◌else◌, length, take,
}
use availproject_op_evm.Chain.Types.{
  Hash, Header, Error, storage_failed, difficulty_not_found, header_not_found, out_of_fuel,
}
use availproject_op_evm.Chain.Monad.{Action, ◌>>=◌, ◌>>◌, pure, fail, stop, gets, or_error, modify}
use availproject_op_evm.Chain.Store.{Storage, Lru, Forks, found, not_found, unreadable}

-- What the chain relies on: its database, its two caches and the header's hash function.
pub record Env : Type 1 where
  pub storage : Storage
  pub headers : Lru Header
  pub difficulties : Lru ℕ
  pub compute_hash : Header → Header

pub data EventType : Type 0 where
  head_event reorg_event fork_event : EventType

pub record Event : Type 0 where
  pub kind : EventType
  pub old_chain : List Header
  pub new_chain : List Header
  pub difficulty : Option ℕ

abbrev pub new_event : Event
new_event = record { kind = head_event; old_chain = []; new_chain = []; difficulty = none }

module _ (env : Env) where
  -- `Blockchain`, with the event that the write in progress fills and those already sent.
  pub record Chain : Type 0 where
    pub db : Storage.Db env.storage
    pub headers_cache : Lru.Entries env.headers
    pub difficulty_cache : Lru.Entries env.difficulties
    pub current_header : Header
    pub current_difficulty : ℕ
    pub event : Event
    pub stream : List Event

  open env use {storage, headers, difficulties, compute_hash}

  -- One write to the database: an error of it leaves everything as it was.
  abbrev pub write : (Storage.Db storage → Option (Storage.Db storage)) → Action Chain (Unit {0})
  write f s = elim (f s.db) [
    | none ↦ (err storage_failed, s)
    | some d ↦ (ok tt, record s { db = d })
  ]

  -- `readHeader`.
  pub read_header : Hash → Action Chain (Option Header)
  read_header hash s = elim (headers.find hash s.headers_cache) [
    | some h ↦ (ok (some h), record s { headers_cache = headers.touch hash s.headers_cache })
    | none ↦ elim ((storage.view s.db).header hash) [
      | none ↦ (ok none, s)
      | some stored ↦ (
        ok (some (compute_hash stored)),
        record s { headers_cache = headers.add hash (compute_hash stored) s.headers_cache },
      )
    ]
  ]

  -- `readTotalDifficulty`.
  pub read_total_difficulty : Hash → Action Chain (Option ℕ)
  read_total_difficulty hash s = elim (difficulties.find hash s.difficulty_cache) [
    | some td ↦
        (ok (some td), record s { difficulty_cache = difficulties.touch hash s.difficulty_cache })
    | none ↦ elim ((storage.view s.db).difficulty hash) [
      | none ↦ (ok none, s)
      | some td ↦ (
        ok (some td),
        record s { difficulty_cache = difficulties.add hash td s.difficulty_cache },
      )
    ]
  ]

  -- `GetHeaderByNumber`.
  pub get_header_by_number : ℕ → Action Chain (Option Header)
  get_header_by_number n s = elim ((storage.view s.db).canonical n) [
    | none ↦ (ok none, s)
    | some hash ↦ read_header hash s
  ]

  -- `setCurrentHeader`.
  unfoldable pub set_current_header : Header → ℕ → Action Chain (Unit {0})
  set_current_header h td = modify λ s. record s { current_header = h; current_difficulty = td }

  abbrev pub add_old_header : Header → Action Chain (Unit {0})
  add_old_header h =
      modify λ s. record s { event = record s.event { old_chain = s.event.old_chain ++ (h ∷ []) } }

  abbrev pub add_new_header : Header → Action Chain (Unit {0})
  add_new_header h =
      modify λ s. record s { event = record s.event { new_chain = s.event.new_chain ++ (h ∷ []) } }

  abbrev pub set_kind : EventType → Action Chain (Unit {0})
  set_kind k = modify λ s. record s { event = record s.event { kind = k } }

  abbrev pub set_difficulty : ℕ → Action Chain (Unit {0})
  set_difficulty td = modify λ s. record s { event = record s.event { difficulty = some td } }

  -- The second half of `writeCanonicalHeader`, once the total difficulty is known.
  pub write_canonical : Header → ℕ → Action Chain (Unit {0})
  write_canonical h td = do
    write (storage.write_canonical_header h td)
    set_kind head_event
    add_new_header h
    set_difficulty td
    set_current_header h td

  -- `writeCanonicalHeader`.
  pub write_canonical_header : Header → Action Chain (Unit {0})
  write_canonical_header h = do
    found_td ← read_total_difficulty h.parent_hash
    parent_td ← or_error found_td difficulty_not_found
    write_canonical h (parent_td + h.difficulty)

  -- The parent's difficulty in `advanceHead`: none is needed where the parent is the zero hash.
  pub parent_difficulty : Header → Action Chain ℕ
  parent_difficulty h =
      if h.parent_hash == 0
      then pure 0
      else (read_total_difficulty h.parent_hash >>= λ td. or_error td difficulty_not_found)

  -- `advanceHead`.
  pub advance_head : Header → Action Chain ℕ
  advance_head h = do
    write (storage.write_head_hash h.hash)
    write (storage.write_head_number h.number)
    write (storage.write_canonical_hash h.number h.hash)
    parent_td ← parent_difficulty h
    write (storage.write_total_difficulty h.hash (parent_td + h.difficulty))
    set_current_header h (parent_td + h.difficulty)
    pure (parent_td + h.difficulty)

  -- `writeGenesisImpl`, after the genesis hash is set.
  unfoldable pub dispatch_event : Event → Action Chain (Unit {0})
  dispatch_event e = modify λ s. record s { stream = s.stream ++ (e ∷ []) }

  pub write_genesis_impl : Header → Action Chain (Unit {0})
  write_genesis_impl h = do
    write (storage.write_header h)
    advance_head h
    dispatch_event (record new_event { new_chain = h ∷ [] })

  -- The loop of `writeFork`: the forks that the header does not extend.
  unfoldable pub without : Hash → List Hash → List Hash
  without parent [] = []
  without parent (fork ∷ forks) =
      let rest = without parent forks in if fork == parent then rest else fork ∷ rest

  -- `writeFork`.
  pub write_fork : Header → Action Chain (Unit {0})
  write_fork h s = elim ((storage.view s.db).forks) [
    | found forks ↦ write (storage.write_forks (without h.parent_hash forks ++ (h.hash ∷ []))) s
    | not_found ↦ write (storage.write_forks (h.hash ∷ [])) s
    | unreadable ↦ (err storage_failed, s)
  ]

  -- `oldHeader, ok = b.readHeader(oldHeader.ParentHash)`: if it is missing, the message of the error
  -- reads a field of the header that is now nil, and the node panics.
  pub parent_of : Header → Action Chain Header
  parent_of h = do
    found_header ← read_header h.parent_hash
    elim found_header [ none ↦ stop | some parent ↦ pure parent ]

  -- The first two loops of `handleReorg`: from a header down to the height of the other one. The
  -- last argument is what was gone through; each round uses up one of the fuel.
  pub go_down : ℕ → ℕ → Header → List Header → Action Chain (Header × List Header)
  go_down zero limit h passed = fail out_of_fuel
  go_down (suc fuel) limit h passed =
      if ltb limit h.number
      then (parent_of h >>= λ parent. go_down fuel limit parent (passed ++ (parent ∷ [])))
      else pure (h, passed)

  -- One of the two tests of a round of the third loop: the header, or its parent if it is above the
  -- other one, and whether it moved.
  pub lower : ℕ → Header → Action Chain (Header × Bool)
  lower limit h =
      if ltb limit h.number
      then (parent_of h >>= λ parent. pure (parent, true))
      else pure (h, false)

  -- Does the list end in a header of that hash?
  pub ends_in : Hash → List Header → Bool
  ends_in hash [] = false
  ends_in hash (h ∷ []) = h.hash == hash
  ends_in hash (h ∷ g ∷ hs) = ends_in hash (g ∷ hs)

  abbrev pub record_old : Header → List Header → List Header
  record_old h passed = if ends_in h.hash passed then passed else passed ++ (h ∷ [])

  -- The third loop, towards the common ancestor: the headers of the old chain that were passed.
  pub meet : ℕ → Bool → Header → Header → List Header → Action Chain (List Header)
  meet zero progress old new passed = fail out_of_fuel
  meet (suc fuel) progress old new passed =
      if old.hash == new.hash || not progress
      then pure passed
      else (lower new.number old >>= λ (old', moved). lower old'.number new >>= λ (new', moved').
          meet fuel (moved || moved') old' new' (record_old old' passed))

  -- `oldChain[:len(oldChain)-1]`, which panics on an empty slice.
  pub all_but_last : List Header → Action Chain (List Header)
  all_but_last [] = stop
  all_but_last (h ∷ hs) = pure (take (length hs) (h ∷ hs))

  pub for_each : (Header → Action Chain (Unit {0})) → List Header → Action Chain (Unit {0})
  for_each f [] = pure tt
  for_each f (h ∷ hs) = do f h; for_each f hs

  -- What `handleReorg` writes once it has gone through both chains.
  pub switch_head : Header → Header → List Header → List Header → Action Chain (Unit {0})
  switch_head old_head new_head old_chain new_chain = do
    abandoned ← all_but_last old_chain
    for_each add_old_header abandoned
    add_old_header old_head
    add_new_header new_head
    for_each add_new_header new_chain
    write_fork old_head
    for_each (λ h. write (storage.write_canonical_hash h.number h.hash)) new_chain
    td ← advance_head new_head
    set_kind reorg_event
    set_difficulty td

  -- `handleReorg`, each loop with the fuel.
  pub handle_reorg : ℕ → Header → Header → Action Chain (Unit {0})
  handle_reorg fuel old_head new_head = do
    (old, old_chain) ← go_down fuel new_head.number old_head []
    (new, new_chain) ← go_down fuel old.number new_head []
    all_old ← meet fuel true old new old_chain
    switch_head old_head new_head all_old new_chain

  -- The two cases of `writeHeaderImpl` off the head: a reorganisation or a fork.
  pub choose_chain : ℕ → Header → ℕ → ℕ → Action Chain (Unit {0})
  choose_chain fuel h incoming current s =
      if ltb current incoming
      then handle_reorg fuel s.current_header h s
      else (do add_old_header h; set_kind fork_event; write_fork h) s

  -- `writeHeaderImpl` where the header does not extend the head.
  pub write_side_header : ℕ → Header → Action Chain (Unit {0})
  write_side_header fuel h = do
    write (storage.write_header h)
    current ← gets λ s. s.current_header.hash
    found_current ← read_total_difficulty current
    current_td ← or_error found_current difficulty_not_found
    found_parent ← read_total_difficulty h.parent_hash
    parent_td ← or_error found_parent header_not_found
    write (storage.write_total_difficulty h.hash (parent_td + h.difficulty))
    modify λ s. record s { headers_cache = headers.add h.hash h s.headers_cache }
    choose_chain fuel h (parent_td + h.difficulty) current_td

  -- `writeHeaderImpl`.
  pub write_header_impl : ℕ → Header → Action Chain (Unit {0})
  write_header_impl fuel h s =
      if h.parent_hash == s.current_header.hash
      then write_canonical_header h s
      else write_side_header fuel h s
