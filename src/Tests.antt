-- ===== src/Tests.antt =====
-- Concrete parameters, and each result at a concrete input.
mod Encodings
mod Headers
mod Blocks
mod Writes
mod Ledger
mod Nodes
mod Serial
mod Extraction
mod Production
mod Workers
mod Joining
mod Subscriptions
