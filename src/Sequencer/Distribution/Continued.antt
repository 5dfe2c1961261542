-- ===== src/Sequencer/Distribution/Continued.antt =====
-- What a sequencer distributes continues the chain of the others.
use availproject_op_evm.Prelude.Bytes.{Bytes}
use availproject_op_evm.Prelude.Dict.{Dict}
use availproject_op_evm.Chain.Types
use availproject_op_evm.Snapshot.Kv.{Kv}
use availproject_op_evm.Snapshot.Both.{Snapshot}
