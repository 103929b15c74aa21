-- ===== src/Types.antt =====
-- src/ethereum_test_types/: allocations of accounts and the trie that commits to them.
pub mod Alloc
pub mod Trie
pub mod AccessList
pub mod Commit
pub mod State
