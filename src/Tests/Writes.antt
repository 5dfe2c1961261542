-- ===== src/Tests/Writes.antt =====
-- The writes of the chain, on a database that is its own view and caches of one entry.
use availproject_op_evm.Prelude.{
  ℕ, ◌∷◌, ◌≡◌, refl, Option, some, none, [], ok, ◌==◌, if◌then◌else◌, arith,
}
use availproject_op_evm.Chain.Types.{Hash, Header}
use availproject_op_evm.Chain.Store.{
  View, Storage, StorageLaws, Lru, LruLaws, update, not_found, found,
}
use availproject_op_evm.Chain.Writes.{Env, Chain, new_event, write_header_impl, handle_reorg}
use availproject_op_evm.Chain.Writes.Reads.{HeadersAgree, DifficultiesAgree}
use availproject_op_evm.Chain.Writes.Head.{write_header_impl-extends}
use availproject_op_evm.Chain.Writes.Reorg.{handle_reorg-keeps_below}

abbrev memory : Storage
memory = record {
  Db = View;
  view = λ d. d;
  write_header = λ h d. some (record d { header = update d.header h.hash h });
  write_canonical_header = λ h td d. some (record d {
    head_hash = some h.hash;
    head_number = some h.number;
    canonical = update d.canonical h.number h.hash;
    header = update d.header h.hash h;
    difficulty = update d.difficulty h.hash td;
  });
  write_head_hash = λ h d. some (record d { head_hash = some h });
  write_head_number = λ n d. some (record d { head_number = some n });
  write_canonical_hash = λ n h d. some (record d { canonical = update d.canonical n h });
  write_total_difficulty = λ h td d. some (record d { difficulty = update d.difficulty h td });
  write_forks = λ hs d. some (record d { forks = found hs });
}

some-injective : {A : Type 0} {a b : A} → some a ≡ some b → b ≡ a
some-injective e = cc e

memory-laws : StorageLaws memory
memory-laws = record {
  header_law = λ h d d' e. some-injective e;
  canonical_header_law = λ h td d d' e. some-injective e;
  head_hash_law = λ h d d' e. some-injective e;
  head_number_law = λ n d d' e. some-injective e;
  canonical_hash_law = λ n h d d' e. some-injective e;
  total_difficulty_law = λ h td d d' e. some-injective e;
  forks_law = λ hs d d' e. some-injective e;
}

abbrev pub find_one : {V : Type 0} → Hash → Option (Hash × V) → Option V
find_one k none = none
find_one k (some (j, v)) = if j == k then some v else none

abbrev pub one_entry : (V : Type 0) → Lru V
one_entry V = record {
  Entries = Option (Hash × V);
  find = find_one;
  touch = λ k c. c;
  add = λ k v c. some (k, v);
}

pub one_entry-laws : (V : Type 0) → LruLaws (one_entry V)
one_entry-laws V = record {
  find-touch = λ k j c. refl;
  find-add = λ k j v u c e. ground (arith, e);
}

abbrev env : Env
env = record {
  storage = memory;
  headers = one_entry Header;
  difficulties = one_entry ℕ;
  compute_hash = λ h. h;
}

abbrev pub head : Header
head = record {
  hash = 11;
  parent_hash = 10;
  sha3_uncles = 0;
  miner = [];
  state_root = 0;
  tx_root = 0;
  receipts_root = 0;
  logs_bloom = [];
  difficulty = 7;
  number = 5;
  gas_limit = 0;
  gas_used = 0;
  timestamp = 0;
  base_fee = 0;
  extra_data = [];
}

abbrev pub next : Header
next = record head { hash = 12; parent_hash = 11; number = 6 }

abbrev rival : Header
rival = record head { hash = 13; parent_hash = 9; difficulty = 8 }

abbrev head_only : Chain env
head_only = record {
  db = record {
    head_hash = some 11;
    head_number = some 5;
    canonical = λ n. if n == 5 then some 11 else if n == 4 then some 10 else none;
    header = λ h. if h == 11 then some head else none;
    difficulty = λ h. if h == 11 then some 20 else none;
    forks = not_found;
  };
  headers_cache = none;
  difficulty_cache = some (11, 20);
  current_header = head;
  current_difficulty = 20;
  event = new_event;
  stream = [];
}

headers_agree : HeadersAgree env head_only
headers_agree k h e = ground (arith, e)

difficulties_agree : DifficultiesAgree env head_only
difficulties_agree k td e = ground (arith, e)

write_header_impl-extends_example :
    (s : Chain env) × (write_header_impl env 9 next head_only ≡ (ok tt, s))
    × (s.current_header ≡ next)
    × (s.current_difficulty ≡ 27)
    × (s.db.header 12 ≡ some next)
    × (s.db.difficulty 12 ≡ some 27)
    × (s.db.canonical 6 ≡ some 12)
    × (s.db.head_hash ≡ some 12)
    × (s.db.head_number ≡ some 6)
write_header_impl-extends_example =
    write_header_impl-extends env memory-laws 9 head_only next 20 _ difficulties_agree refl refl
      refl

handle_reorg-keeps_below_example :
    (handle_reorg env 2 head rival head_only).1.db.canonical 4 ≡ some 10
handle_reorg-keeps_below_example =
    handle_reorg-keeps_below env memory-laws 0 4 head rival head_only refl (λ e. omega (arith, e))
      (λ e. omega (arith, e))

abbrev forked : Chain env
forked = record head_only { db = record head_only.db { forks = found (9 ∷ 4 ∷ []) } }
