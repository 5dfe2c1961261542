-- ===== src/Node.antt =====
-- consensus/avail: a node around its chain: what kind of node it is, how it catches up with Avail, how
-- it gets its funds and its stake.
pub mod Kind
pub mod Sync
pub mod Staking
pub mod Funds
