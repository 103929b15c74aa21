-- ===== src/Tools.antt =====
-- src/ethereum_test_tools/: the generators of code.
pub mod Generators
