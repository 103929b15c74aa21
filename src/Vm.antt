-- ===== src/Vm.antt =====
-- src/ethereum_test_vm/: bytecode and its stack bookkeeping, opcodes and their table.
pub mod Bytecode
pub mod Opcode
pub mod Opcodes
pub mod Call
pub mod Machine
