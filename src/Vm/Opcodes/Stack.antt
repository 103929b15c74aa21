-- ===== src/Vm/Opcodes/Stack.antt =====
-- src/ethereum_test_vm/opcodes.py, opcodes 0x50 to 0x7f: memory, storage, jumps and pushes.
use execution_spec_tests.Base.{[], ◌∷◌}
use execution_spec_tests.Vm.Opcode.{Opcode, plain, new}

abbrev pub pop : Opcode
pop = new (80 ∷ []) "POP" (record plain { popped_stack_items = 1 })

abbrev pub mload : Opcode
mload =
    new (81 ∷ []) "MLOAD"
      (record plain { popped_stack_items = 1; pushed_stack_items = 1; kwargs = "offset" ∷ [] })

abbrev pub mstore : Opcode
mstore =
    new (82 ∷ []) "MSTORE"
      (record plain { popped_stack_items = 2; kwargs = "offset" ∷ "value" ∷ [] })

abbrev pub mstore8 : Opcode
mstore8 =
    new (83 ∷ []) "MSTORE8"
      (record plain { popped_stack_items = 2; kwargs = "offset" ∷ "value" ∷ [] })

abbrev pub sload : Opcode
sload =
    new (84 ∷ []) "SLOAD"
      (record plain { popped_stack_items = 1; pushed_stack_items = 1; kwargs = "key" ∷ [] })

abbrev pub sstore : Opcode
sstore =
    new (85 ∷ []) "SSTORE" (record plain { popped_stack_items = 2; kwargs = "key" ∷ "value" ∷ [] })

abbrev pub jump : Opcode
jump = new (86 ∷ []) "JUMP" (record plain { popped_stack_items = 1; kwargs = "pc" ∷ [] })

abbrev pub jumpi : Opcode
jumpi =
    new (87 ∷ []) "JUMPI"
      (record plain { popped_stack_items = 2; kwargs = "pc" ∷ "condition" ∷ [] })

abbrev pub pc : Opcode
pc = new (88 ∷ []) "PC" (record plain { pushed_stack_items = 1 })

abbrev pub msize : Opcode
msize = new (89 ∷ []) "MSIZE" (record plain { pushed_stack_items = 1 })

abbrev pub gas : Opcode
gas = new (90 ∷ []) "GAS" (record plain { pushed_stack_items = 1 })

abbrev pub jumpdest : Opcode
jumpdest = new (91 ∷ []) "JUMPDEST" (plain)

abbrev pub noop : Opcode
noop = new (91 ∷ []) "NOOP" (plain)

abbrev pub tload : Opcode
tload =
    new (92 ∷ []) "TLOAD"
      (record plain { popped_stack_items = 1; pushed_stack_items = 1; kwargs = "key" ∷ [] })

abbrev pub tstore : Opcode
tstore =
    new (93 ∷ []) "TSTORE" (record plain { popped_stack_items = 2; kwargs = "key" ∷ "value" ∷ [] })

abbrev pub mcopy : Opcode
mcopy =
    new (94 ∷ []) "MCOPY"
      (record plain { popped_stack_items = 3; kwargs = "dest_offset" ∷ "offset" ∷ "size" ∷ [] })

abbrev pub push0 : Opcode
push0 = new (95 ∷ []) "PUSH0" (record plain { pushed_stack_items = 1 })

abbrev pub push1 : Opcode
push1 = new (96 ∷ []) "PUSH1" (record plain { pushed_stack_items = 1; data_portion_length = 1 })

abbrev pub push2 : Opcode
push2 = new (97 ∷ []) "PUSH2" (record plain { pushed_stack_items = 1; data_portion_length = 2 })

abbrev pub push3 : Opcode
push3 = new (98 ∷ []) "PUSH3" (record plain { pushed_stack_items = 1; data_portion_length = 3 })

abbrev pub push4 : Opcode
push4 = new (99 ∷ []) "PUSH4" (record plain { pushed_stack_items = 1; data_portion_length = 4 })

abbrev pub push5 : Opcode
push5 = new (100 ∷ []) "PUSH5" (record plain { pushed_stack_items = 1; data_portion_length = 5 })

abbrev pub push6 : Opcode
push6 = new (101 ∷ []) "PUSH6" (record plain { pushed_stack_items = 1; data_portion_length = 6 })

abbrev pub push7 : Opcode
push7 = new (102 ∷ []) "PUSH7" (record plain { pushed_stack_items = 1; data_portion_length = 7 })

abbrev pub push8 : Opcode
push8 = new (103 ∷ []) "PUSH8" (record plain { pushed_stack_items = 1; data_portion_length = 8 })

abbrev pub push9 : Opcode
push9 = new (104 ∷ []) "PUSH9" (record plain { pushed_stack_items = 1; data_portion_length = 9 })

abbrev pub push10 : Opcode
push10 = new (105 ∷ []) "PUSH10" (record plain { pushed_stack_items = 1; data_portion_length = 10 })

abbrev pub push11 : Opcode
push11 = new (106 ∷ []) "PUSH11" (record plain { pushed_stack_items = 1; data_portion_length = 11 })

abbrev pub push12 : Opcode
push12 = new (107 ∷ []) "PUSH12" (record plain { pushed_stack_items = 1; data_portion_length = 12 })

abbrev pub push13 : Opcode
push13 = new (108 ∷ []) "PUSH13" (record plain { pushed_stack_items = 1; data_portion_length = 13 })

abbrev pub push14 : Opcode
push14 = new (109 ∷ []) "PUSH14" (record plain { pushed_stack_items = 1; data_portion_length = 14 })

abbrev pub push15 : Opcode
push15 = new (110 ∷ []) "PUSH15" (record plain { pushed_stack_items = 1; data_portion_length = 15 })

abbrev pub push16 : Opcode
push16 = new (111 ∷ []) "PUSH16" (record plain { pushed_stack_items = 1; data_portion_length = 16 })

abbrev pub push17 : Opcode
push17 = new (112 ∷ []) "PUSH17" (record plain { pushed_stack_items = 1; data_portion_length = 17 })

abbrev pub push18 : Opcode
push18 = new (113 ∷ []) "PUSH18" (record plain { pushed_stack_items = 1; data_portion_length = 18 })

abbrev pub push19 : Opcode
push19 = new (114 ∷ []) "PUSH19" (record plain { pushed_stack_items = 1; data_portion_length = 19 })

abbrev pub push20 : Opcode
push20 = new (115 ∷ []) "PUSH20" (record plain { pushed_stack_items = 1; data_portion_length = 20 })

abbrev pub push21 : Opcode
push21 = new (116 ∷ []) "PUSH21" (record plain { pushed_stack_items = 1; data_portion_length = 21 })

abbrev pub push22 : Opcode
push22 = new (117 ∷ []) "PUSH22" (record plain { pushed_stack_items = 1; data_portion_length = 22 })

abbrev pub push23 : Opcode
push23 = new (118 ∷ []) "PUSH23" (record plain { pushed_stack_items = 1; data_portion_length = 23 })

abbrev pub push24 : Opcode
push24 = new (119 ∷ []) "PUSH24" (record plain { pushed_stack_items = 1; data_portion_length = 24 })

abbrev pub push25 : Opcode
push25 = new (120 ∷ []) "PUSH25" (record plain { pushed_stack_items = 1; data_portion_length = 25 })

abbrev pub push26 : Opcode
push26 = new (121 ∷ []) "PUSH26" (record plain { pushed_stack_items = 1; data_portion_length = 26 })

abbrev pub push27 : Opcode
push27 = new (122 ∷ []) "PUSH27" (record plain { pushed_stack_items = 1; data_portion_length = 27 })

abbrev pub push28 : Opcode
push28 = new (123 ∷ []) "PUSH28" (record plain { pushed_stack_items = 1; data_portion_length = 28 })

abbrev pub push29 : Opcode
push29 = new (124 ∷ []) "PUSH29" (record plain { pushed_stack_items = 1; data_portion_length = 29 })

abbrev pub push30 : Opcode
push30 = new (125 ∷ []) "PUSH30" (record plain { pushed_stack_items = 1; data_portion_length = 30 })

abbrev pub push31 : Opcode
push31 = new (126 ∷ []) "PUSH31" (record plain { pushed_stack_items = 1; data_portion_length = 31 })

abbrev pub push32 : Opcode
push32 = new (127 ∷ []) "PUSH32" (record plain { pushed_stack_items = 1; data_portion_length = 32 })
