-- ===== src/Avail.antt =====
-- pkg/avail: how blocks travel through Avail, and how a node finds its place in it.
pub mod Blob
pub mod Extract
pub mod Search
