-- ===== src/Staking.antt =====
-- pkg/staking: who may produce blocks, and the transactions that call the staking contract.
pub mod Sequencers
pub mod Participants
pub mod Transactions
