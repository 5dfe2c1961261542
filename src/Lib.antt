-- ===== src/Lib.antt =====
-- A verification library of OpEVM, an optimistic rollup node over Avail.
--
-- The program. A sequencer builds blocks from its transaction pool, seals them and submits them to
-- Avail; every node reads them back, checks and executes them, and keeps a chain of headers.
-- Watchtowers check the blocks again, and prove fraud with a block of their own, over which a
-- dispute begins that ends in a slashing. Sequencers take turns by the window of the Avail block.
--
-- Which file models which part:
--   Chain/Types: headers, transactions and blocks, and the errors of pkg/blockchain/blockchain.go.
--   Chain/Gas: calculateGasLimit and verifyGasLimit, in Gas/Bounds and Gas/Target what they accept
--   and where the limit goes.
--   Chain/Fee: CalculateBaseFee and updateGasPriceAvg, with Fee/BaseFee and Fee/Average.
--   Chain/Verify: verifyBlock and what it calls, and the lighter checks of
--   consensus/avail/validator/validator.go, with Verify/Parent and Verify/Body.
--   Chain/Store: the database and the caches in front of it, by their reads and writes.
--   Chain/Monad: calls that change the chain and may fail or panic half way.
--   Chain/Writes: readHeader, readTotalDifficulty, writeHeaderImpl and what it calls down to
--   handleReorg, with Writes/Reads, Writes/Head, Writes/Start, Writes/Side and
--   Writes/Reorg.
--   Chain/Archive: bodies, receipts and lookups in the database. Chain/Blocks: WriteBlock,
--   WriteFullBlock, writeBody, the recovery of senders and the reads of blocks, with Blocks/Written,
--   Blocks/ReadBack and Blocks/Unfinished. Chain/Genesis: ComputeGenesis, with Genesis/Restart.
--   Chain/Ancestors: GetHashHelper.
--   Chain/Batch: WriteHeadersWithBodies, with Batch/Write. Chain/Applied: the calls of WriteBlock by the
--   validator, the watchtower and the builder. Chain/Events: pkg/blockchain/subscription.go, with
--   Events/Counts and Events/Unread.
--   Extra: the extra data of a header, pkg/block/extra.go. Extra/Encoding has the operations of RLP;
--   Extra/Fields, Extra/Validators and Extra/Overwrite what is read back.
--   Seal: pkg/block/seal.go, with Seal/Recovery.
--   Staking/Sequencers: pkg/staking/sequencers_rand.go and sequencers_delayed.go, and
--   IsNextSequencer of consensus/avail/sequencer.go, with Sequencers/Agreement.
--   Snapshot: pkg/snapshot/state.go, and the pairing of keys and values of distributor.go, with
--   Snapshot/Replay. Snapshot/Kv: pkg/snapshot/blockchain.go and blockchain_inmem.go, with Kv/Replay.
--   Snapshot/Both: pkg/snapshot/snapshot.go and the message of distributor.go, with Both/Sent.
--   Fraud: the state of a dispute in consensus/avail/fraud.go, with Fraud/Dispute.
--   Avail/Blob: pkg/avail/blob.go, with Blob/RoundTrip. Avail/Extract: BlockFromAvail of
--   pkg/avail/block.go and the extrinsic of pkg/avail/sender.go, with Extract/InOrder.
--   Avail/Search: SearchBlock of pkg/avail/search.go with the search function of
--   consensus/avail/syncer.go, with Search/Walk.
--   Build: pkg/block/builder.go, with Build/Sealed, Build/OnParent and Build/Targets, what the nodes
--   find in a built block.
--   Validator: the checks of consensus/avail/validator/validator.go as a whole, with
--   Validator/Signer.
--   Staking/Transactions: the calls of the staking contract in pkg/staking, and
--   IsBeginDisputeResolutionTx, with Transactions/Recognition. Staking/Participants:
--   pkg/staking/participants.go and ShouldStake of node.go, with Participants/Membership.
--   Watchtower: consensus/avail/watchtower/watchtower.go, with Watchtower/Accusation.
--   Watchtower/Patrol: the loop of consensus/avail/watchtower.go, with Patrol/InOrder and
--   Patrol/Unaccused.
--   Sequencer: writeTransactions of consensus/avail/sequencer.go, with Sequencer/Filling.
--   Sequencer/Mining: writeBlock of the same file up to the block's hash, with Mining/Signed.
--   Sequencer/Distribution: what writeBlock distributes at its end and processStorageSnapshot, with
--   Distribution/Continued.
--   Sequencer/Round: the body of the loop of Run in the same file, with Sequencer/Turn and
--   Turn/Enabling.
--   Resolution: produceBeginDisputeResolutionBlock, produceSlashBlock and the search in the pool of
--   consensus/avail/fraud.go, and Stake and UnStake of pkg/staking/staking.go, with
--   Resolution/Ending.
--   Node/Kind: consensus/avail/mechanism.go. Node/Sync: syncNode and syncNodeUntil of
--   consensus/avail/syncer.go, with Sync/Written and Sync/UpToDate. Node/Funds: Initialize,
--   ensureAccountBalance and syncConditionFn of consensus/avail/avail.go and pkg/faucet/account.go,
--   with Funds/Wealthiest and Funds/TopUp. Node/Staking: consensus/avail/staking.go, with Staking/Retries.
--   Prelude: outcomes of a Go call, byte strings, maps as association lists, sorting, integers.
--   Tests: concrete parameters, and each result at a concrete input.
--
-- How they meet: verification reads headers as the chain stores them and takes the gas limit's
-- check; the seal is written into the extra data and recovered from it; a builder's block is what
-- the validator and the parent check take; a watchtower's accusation is a built block that fraud
-- resolution finds by its extra data and judges, and the block that slashes ends the dispute on the
-- sequencers, which handle the blocks that are extracted from Avail one after the other.
-- A block is written with its body and receipts over the header chain, which sends an event to the
-- subscriptions; the changes of a sequencer's storages are recorded, sent as one message and applied by
-- the others, which load their head again as after a restart. A node that joins goes through what Avail
-- has with the same extraction before it stakes.
--
-- How code becomes definitions. A call ends in a value, an error or a panic, where a nil pointer, an
-- index out of range or a division by zero is a panic. A Go map is an association list, whose order
-- nothing depends on. The fixed-width integers are natural numbers with their wrap-around written
-- out; big integers are unbounded. Hashes and addresses are numbers, compared only. A lock and the
-- log are left out: each call is one step.
--
-- Parameters stand for what is not in the repository: the database, the LRU caches, RLP, the
-- signatures, the hash of a header, the execution of transactions, the shuffle of math/rand, and the
-- order in which Go ranges over a map. What the code relies on of them is a record of laws, and
-- Tests has an instance of each.
--
-- Fuel. The loops of handleReorg follow parent hashes that may be wrong in a damaged database; they
-- run on fuel, and an own error says that it ran out. Between heads of the same height two rounds
-- are enough. SearchBlock can go back and forth for ever on what the client answers; on the way back
-- to a block it needs a round for each block. The loop of writeTransactions needs one round more than
-- the pool has transactions to offer, and so does the search for the disputed transaction. Every
-- other loop is over a list.
--
-- The ten tries to put a stake into the pool are counted down, as in the source.
--
-- Not modelled: the reads of receipts and of a transaction by its hash, the streams and subscriptions
-- of Avail, the calls of writeBlock that send and write its block, waiting for peers, the staking
-- contract and the queries that decode one value of it, the server, its configuration and commands.
-- The decision whom to slash takes the building and sending of the two blocks as parameters, and the
-- loops of a node take what they call as operations on its world, since each of these is modelled by
-- itself; the watchtower's query of the stakes leaves that world as it is.
pub mod Prelude
pub mod Chain
pub mod Extra
pub mod Seal
pub mod Staking
pub mod Snapshot
pub mod Avail
pub mod Build
pub mod Validator
pub mod Watchtower
pub mod Sequencer
pub mod Fraud
pub mod Node
pub mod Resolution
pub mod Tests
