-- ===== src/Tests/Blocks.antt =====
-- Blocks: gas limits, fees and block verification.
use availproject_op_evm.Prelude.{
  ℕ, ◌/◌, ◌≡◌, ◌↔◌, refl, Bool, true, false, Option, some, none, List, [], length, Outcome, ok,
  ◌==◌, if◌then◌else◌, arith,
}
use availproject_op_evm.Chain.Types.{Error, Hash, Header, Transaction, Block}
use availproject_op_evm.Chain.Gas.{calculate_gas_limit, verify_gas_limit}
use availproject_op_evm.Chain.Gas.Bounds.{verify_gas_limit-calculate_gas_limit}
use availproject_op_evm.Chain.Gas.Target.{limit_after, limit_after-target}
use availproject_op_evm.Chain.Fee.{FeeConfig, calculate_base_fee}
use availproject_op_evm.Chain.Fee.BaseFee.{IsRegular, FeeMoves, calculate_base_fee-FeeMoves}
use availproject_op_evm.Chain.Verify.{Execution, verify_block_parent}
use availproject_op_evm.Chain.Verify.Parent.{IsInLine, verify_block_parent_iff}

abbrev parent : Header
parent = record {
  hash = 11;
  parent_hash = 10;
  sha3_uncles = 0;
  miner = [];
  state_root = 3;
  tx_root = 0;
  receipts_root = 0;
  logs_bloom = [];
  difficulty = 1;
  number = 7;
  gas_limit = 8192;
  gas_used = 5000;
  timestamp = 100;
  base_fee = 1000;
  extra_data = [];
}

abbrev child : Header
child = record parent { hash = 12; parent_hash = 11; number = 8; gas_limit = 8200; gas_used = 0 }

abbrev far_child : Header
far_child = record child { number = 9 }

abbrev block_of : Header → Block
block_of h = record { header = h; transactions = []; uncles = [] }

abbrev known : Hash → Option Header
known h = if h == 11 then some parent else none

abbrev no_dispute : Transaction → Bool
no_dispute tx = false

abbrev never : Transaction → Outcome Error Bool
never tx = ok false

child_limit : child.gas_limit ≡ calculate_gas_limit 8200 parent.gas_limit
unfolding calculate_gas_limit
child_limit = refl

verify_gas_limit-calculate_gas_limit_example : verify_gas_limit child parent ≡ ok tt
verify_gas_limit-calculate_gas_limit_example =
    verify_gas_limit-calculate_gas_limit 8200 child parent (omega arith) (omega arith) child_limit
      (omega arith)

limit_after-target_example : limit_after 2000 100 1930 ≡ 2000
limit_after-target_example =
    limit_after-target 2000 100 1930 (omega arith) (omega arith) (omega arith) (omega arith)
      (omega arith)

abbrev fees : FeeConfig
fees = record { london = λ n. true; genesis_base_fee = 1; base_fee_em = 2 }

parent-IsRegular : IsRegular fees parent
parent-IsRegular = record {
  active = refl;
  em = omega arith;
  target = omega arith;
  used = omega arith;
  room = omega arith;
}

calculate_base_fee-FeeMoves_example :
    (next : ℕ) × (calculate_base_fee fees parent ≡ ok next) × FeeMoves (8192 / 2) 5000 1000 next
calculate_base_fee-FeeMoves_example = calculate_base_fee-FeeMoves fees parent parent-IsRegular

verify_block_parent_iff_example :
    (verify_block_parent known no_dispute (block_of child) ≡ ok tt)
    ↔ IsInLine no_dispute (block_of child) parent
verify_block_parent_iff_example =
    verify_block_parent_iff known no_dispute (block_of child) parent refl (omega arith)
      (omega arith) (omega arith) (omega arith)

-- Execution that gives every transaction a receipt and uses no gas.
abbrev no_gas : Execution
no_gas = record {
  Receipt = ℕ;
  Receipts = List ℕ;
  cache = λ h rs cs. rs;
  uncle_root = λ us. length us;
  transactions_root = λ txs. length txs;
  receipts_root = λ rs. length rs;
  block_creator = λ h. 0;
  cached = λ rs h. some rs;
  process_block = λ root block creator. some (root, [], 0);
  verify_header = λ h. ok tt;
}
