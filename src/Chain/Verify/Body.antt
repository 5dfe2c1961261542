-- ===== src/Chain/Verify/Body.antt =====
-- What the body checks accept.
use availproject_op_evm.Prelude.{ℕ, ◌≡◌, ◌↔◌, Option, some, List, ok, length, arith}
use availproject_op_evm.Chain.Types.{Hash, Header, Block}
use availproject_op_evm.Chain.Verify.{Execution, verify_block_body}

module _ (e : Execution) where
  -- What a header must say of a block's body and of its execution.
  abbrev pub MatchesExecution : Block → List e.Receipt → Hash → ℕ → Type 0
  MatchesExecution block receipts root total_gas =
      (e.uncle_root block.uncles ≡ block.header.sha3_uncles)
      × (e.transactions_root block.transactions ≡ block.header.tx_root)
      × (length receipts ≡ length block.transactions)
      × (root ≡ block.header.state_root)
      × (total_gas ≡ block.header.gas_used)
      × (e.receipts_root receipts ≡ block.header.receipts_root)

  -- Where the parent is known and the block executes, its body is accepted exactly when the header
  -- matches the execution, and then the receipts are cached under the block's hash.
  pub verify_block_body_iff :
      (read_header : Hash → Option Header) (cache : e.Receipts) (block : Block) (parent : Header)
      (root : Hash) (receipts : List e.Receipt) (total_gas : ℕ)
      → read_header block.header.parent_hash ≡ some parent
      → e.process_block parent.state_root block (e.block_creator block.header)
        ≡ some (root, receipts, total_gas)
      → (verify_block_body e read_header cache block
          ≡ ok (receipts, e.cache block.header.hash receipts cache))
        ↔ MatchesExecution block receipts root total_gas
  unfolding verify_block_body
  verify_block_body_iff read_header cache block parent root receipts total_gas found run =
      ground arith
