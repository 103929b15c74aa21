-- ===== src/BaseTypes.antt =====
-- src/ethereum_test_base_types/: storage and accounts, with the numbers they hold.
pub mod Number
pub mod Storage
pub mod Account
