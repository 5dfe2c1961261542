-- ===== src/Tests/Ledger.antt =====
-- Whole blocks on a database that is its own view and contents: the write of a block, a write that
-- is left half done, a start over the same database, and the hashes of earlier blocks.
use availproject_op_evm.Prelude.{
  ℕ, ◌∷◌, ◌≡◌, refl, Option, some, none, List, [], false, ok, err, ◌==◌, if◌then◌else◌, length,
  arith,
}
use availproject_op_evm.Prelude.Int.{pos}
use availproject_op_evm.Chain.Types.{Hash, Header, Transaction, Block, execution_failed}
use availproject_op_evm.Chain.Store.{
  View, Storage, StorageLaws, TakesHeads, update, not_found, found,
}
use availproject_op_evm.Chain.Archive.{Contents, Archive, ArchiveLaws, IsReliable}
use availproject_op_evm.Chain.Verify.{Execution}
use availproject_op_evm.Chain.Writes.{Env, new_event}
use availproject_op_evm.Chain.Writes.Reads.{HeadersAgree, DifficultiesAgree}
use availproject_op_evm.Chain.Blocks.{Setting, Ledger, recover_from_fields_in_block, write_block}
use availproject_op_evm.Chain.Blocks.ReadBack.{IsNext, IsWritten, write_block-IsWritten}
use availproject_op_evm.Chain.Blocks.Unfinished.{write_block-unfinished}
use availproject_op_evm.Chain.Genesis.{compute_genesis}
use availproject_op_evm.Chain.Genesis.Restart.{compute_genesis-again}
use availproject_op_evm.Chain.Ancestors.{ancestor, get_hash_helper, get_hash_helper-ancestor}
use availproject_op_evm.Tests.Writes.{one_entry, one_entry-laws, head, next}

record Disk : Type 0 where
  view : View
  contents : Contents ℕ

abbrev on_view : (View → View) → Disk → Option Disk
on_view f d = some (record d { view = f d.view })

abbrev on_contents : (Contents ℕ → Contents ℕ) → Disk → Option Disk
on_contents f d = some (record d { contents = f d.contents })

abbrev disk : Storage
disk = record {
  Db = Disk;
  view = λ d. d.view;
  write_header = λ h. on_view (λ v. record v { header = update v.header h.hash h });
  write_canonical_header = λ h td. on_view (λ v. record v {
    head_hash = some h.hash;
    head_number = some h.number;
    canonical = update v.canonical h.number h.hash;
    header = update v.header h.hash h;
    difficulty = update v.difficulty h.hash td;
  });
  write_head_hash = λ h. on_view (λ v. record v { head_hash = some h });
  write_head_number = λ n. on_view (λ v. record v { head_number = some n });
  write_canonical_hash = λ n h. on_view (λ v. record v { canonical = update v.canonical n h });
  write_total_difficulty =
      λ h td. on_view (λ v. record v { difficulty = update v.difficulty h td });
  write_forks = λ hs. on_view (λ v. record v { forks = found hs });
}

same_view : {a b : Disk} → some a ≡ some b → b.view ≡ a.view
same_view e = cc e

disk-laws : StorageLaws disk
disk-laws = record {
  header_law = λ h d d' e. same_view e;
  canonical_header_law = λ h td d d' e. same_view e;
  head_hash_law = λ h d d' e. same_view e;
  head_number_law = λ n d d' e. same_view e;
  canonical_hash_law = λ n h d d' e. same_view e;
  total_difficulty_law = λ h td d d' e. same_view e;
  forks_law = λ hs d d' e. same_view e;
}

disk-heads : TakesHeads disk
disk-heads = record {
  takes_header = λ h d. (_, refl);
  takes_head_hash = λ h d. (_, refl);
  takes_head_number = λ n d. (_, refl);
  takes_canonical_hash = λ n h d. (_, refl);
  takes_total_difficulty = λ h td d. (_, refl);
}

abbrev shelf : Archive disk ℕ
shelf = record {
  contents = λ d. d.contents;
  write_body = λ k b. on_contents (λ c. record c { body = update c.body k b });
  write_receipts = λ k rs. on_contents (λ c. record c { receipts = update c.receipts k rs });
  write_tx_lookup = λ k b. on_contents (λ c. record c { tx_lookup = update c.tx_lookup k b });
}

same_contents : {a b : Disk} → some a ≡ some b → b.contents ≡ a.contents
same_contents e = cc e

shelf-laws : ArchiveLaws disk ℕ shelf
shelf-laws = record {
  body_law = λ k b d d' e. (same_view e, same_contents e);
  receipts_law = λ k rs d d' e. (same_view e, same_contents e);
  tx_lookup_law = λ k b d d' e. (same_view e, same_contents e);
  canonical_header_contents = λ h td d d' e. same_contents e;
}

shelf-reliable : IsReliable disk ℕ shelf
shelf-reliable = record {
  takes_body = λ k b d. (_, refl);
  takes_receipts = λ k rs d. (_, refl);
  takes_tx_lookup = λ k b d. (_, refl);
  takes_canonical_header = λ h td d. (_, refl);
}

abbrev env : Env
env = record {
  storage = disk;
  headers = one_entry Header;
  difficulties = one_entry ℕ;
  compute_hash = λ h. h;
}

-- Execution that accepts a block if its creator is address 1; the cache keeps the last receipts.
abbrev execution : Execution
execution = record {
  Receipt = ℕ;
  Receipts = Option (Hash × List ℕ);
  cache = λ h rs cs. some (h, rs);
  uncle_root = λ us. length us;
  transactions_root = λ txs. length txs;
  receipts_root = λ rs. length rs;
  block_creator = λ h. 0;
  cached = λ c h. elim c [ none ↦ none | some e ↦ if e.0 == h then some e.1 else none ];
  process_block = λ root block creator. if creator == 1 then some (root, 9 ∷ [], 0) else none;
  verify_header = λ h. ok tt;
}

abbrev setting : Setting
setting = record {
  env = env;
  execution = execution;
  archive = shelf;
  sender = λ tx. some 4;
  get_gas_price = λ tx fee. tx.gas_price;
}

abbrev unsigned : Transaction
unsigned = record {
  hash = 70;
  from = 0;
  to = some 5;
  nonce = 0;
  gas = 100;
  gas_price = 3;
  is_state_tx = false;
  input = [];
}

abbrev block : Block
block = record { header = next; transactions = unsigned ∷ []; uncles = [] }

abbrev ledger : Option (Hash × List ℕ) → Ledger setting
ledger receipts = record {
  chain = record {
    db = record {
      view = record {
        head_hash = some 11;
        head_number = some 5;
        canonical = λ n. if n == 5 then some 11 else none;
        header = λ h. if h == 11 then some head else none;
        difficulty = λ h. if h == 11 then some 20 else none;
        forks = not_found;
      };
      contents = record { body = λ h. none; receipts = λ h. none; tx_lookup = λ h. none };
    };
    headers_cache = none;
    difficulty_cache = some (11, 20);
    current_header = head;
    current_difficulty = 20;
    event = new_event;
    stream = [];
  };
  receipts_cache = receipts;
  gp_average = record { price = pos 0; count = 0 };
  genesis = 1;
}

ledger-headers : (receipts : Option (Hash × List ℕ)) → HeadersAgree env (ledger receipts).chain
ledger-headers receipts k h e = ground (arith, e)

ledger-difficulties :
    (receipts : Option (Hash × List ℕ)) → DifficultiesAgree env (ledger receipts).chain
ledger-difficulties receipts k td e = ground (arith, e)

recovered :
    recover_from_fields_in_block setting (unsigned ∷ []) ≡ ok (record unsigned { from = 4 } ∷ [])
unfolding recover_from_fields_in_block
recovered = refl

block-IsNext :
    (receipts : Option (Hash × List ℕ))
    → IsNext setting (ledger receipts) block (record unsigned { from = 4 } ∷ []) 20
block-IsNext receipts = record {
  above = omega arith;
  on_head = refl;
  parent_stored = refl;
  fresh = refl;
  hashed = refl;
  recovered = recovered;
  headers_agree = ledger-headers receipts;
  difficulties_agree = ledger-difficulties receipts;
}

write_block-IsWritten_example :
    (s : Ledger setting) × (write_block setting 9 block (ledger (some (12, 9 ∷ []))) ≡ (ok tt, s))
    × IsWritten setting
        (ledger (some (12, 9 ∷ [])))
        s
        (record block { transactions = record unsigned { from = 4 } ∷ [] })
        (9 ∷ [])
        27
write_block-IsWritten_example =
    write_block-IsWritten setting disk-laws shelf-laws shelf-reliable (one_entry-laws Header) 9
      (ledger (some (12, 9 ∷ []))) block (record unsigned { from = 4 } ∷ []) 20 (9 ∷ [])
      (block-IsNext (some (12, 9 ∷ []))) refl

write_block-unfinished_example :
    (s : Ledger setting) × (write_block setting 9 block (ledger none) ≡ (err execution_failed, s))
    × (s.chain.current_header ≡ next)
    × (s.chain.stream ≡ [])
    × ((shelf.contents s.chain.db).receipts ≡ (shelf.contents (ledger none).chain.db).receipts)
    × (write_block setting 9 block s ≡ (ok tt, s))
write_block-unfinished_example =
    write_block-unfinished setting (one_entry-laws Header) disk-laws shelf-laws shelf-reliable 9
      (ledger none) block (record unsigned { from = 4 } ∷ []) 20 head (block-IsNext none) refl refl
      refl

abbrev genesis : Header
genesis = record head { hash = 2; parent_hash = 0; number = 0 }

abbrev empty : Ledger setting
empty = record (ledger none) {
  chain = record (ledger none).chain {
    db = record (ledger none).chain.db {
      view = record (ledger none).chain.db.view { head_hash = none };
    };
  };
}

compute_genesis-again_example :
    (s : Ledger setting) × (compute_genesis setting genesis empty ≡ (ok tt, s))
    × (s.chain.current_header ≡ genesis)
    × (s.genesis ≡ 2)
    × ((t : Ledger setting)
        → t.chain.db ≡ s.chain.db
        → HeadersAgree env t.chain
        → DifficultiesAgree env t.chain
        → (t' : Ledger setting) × (compute_genesis setting genesis t ≡ (ok tt, t'))
          × (t'.chain.current_header ≡ s.chain.current_header)
          × (t'.chain.current_difficulty ≡ s.chain.current_difficulty)
          × (t'.chain.db ≡ t.chain.db)
          × (t'.genesis ≡ s.genesis))
compute_genesis-again_example =
    compute_genesis-again setting (one_entry-laws Header) disk-laws disk-heads empty genesis refl
      refl refl refl

get_hash_helper-ancestor_example : (get_hash_helper env next 4 (ledger none).chain).0 ≡ ok 10
unfolding ancestor
get_hash_helper-ancestor_example =
    get_hash_helper-ancestor env (one_entry-laws Header) next 4 (ledger none).chain
      (ledger-headers none) (omega arith) (omega arith)
