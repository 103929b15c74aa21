-- ===== src/Forks.antt =====
-- ethereum_test_forks: the fork classes, their order, the selection of forks, and the quantities
-- that a fork defines.
pub mod Fork
pub mod Selection
pub mod Costs
pub mod Gas
pub mod Arith
pub mod BaseFee
pub mod Blobs
pub mod Transition
