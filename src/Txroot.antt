-- ===== src/Txroot.antt =====
-- lib/txroot: the root of the hash tree of a payload's transactions.
pub mod Result
pub mod ZeroHashes
pub mod Depth
pub mod Merkle
pub mod Root
pub mod Hash
pub mod Hasher
pub mod Memory
pub mod Tests
