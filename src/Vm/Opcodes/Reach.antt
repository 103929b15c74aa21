-- ===== src/Vm/Opcodes/Reach.antt =====
-- src/ethereum_test_vm/opcodes.py, opcodes 0x80 to 0x9f: DUP and SWAP.
use execution_spec_tests.Base.{some, [], ◌∷◌}
use execution_spec_tests.Vm.Opcode.{Opcode, plain, new}

abbrev pub dup1 : Opcode
dup1 = new (128 ∷ []) "DUP1" (record plain { pushed_stack_items = 1; min_stack_height = some 1 })

abbrev pub dup2 : Opcode
dup2 = new (129 ∷ []) "DUP2" (record plain { pushed_stack_items = 1; min_stack_height = some 2 })

abbrev pub dup3 : Opcode
dup3 = new (130 ∷ []) "DUP3" (record plain { pushed_stack_items = 1; min_stack_height = some 3 })

abbrev pub dup4 : Opcode
dup4 = new (131 ∷ []) "DUP4" (record plain { pushed_stack_items = 1; min_stack_height = some 4 })

abbrev pub dup5 : Opcode
dup5 = new (132 ∷ []) "DUP5" (record plain { pushed_stack_items = 1; min_stack_height = some 5 })

abbrev pub dup6 : Opcode
dup6 = new (133 ∷ []) "DUP6" (record plain { pushed_stack_items = 1; min_stack_height = some 6 })

abbrev pub dup7 : Opcode
dup7 = new (134 ∷ []) "DUP7" (record plain { pushed_stack_items = 1; min_stack_height = some 7 })

abbrev pub dup8 : Opcode
dup8 = new (135 ∷ []) "DUP8" (record plain { pushed_stack_items = 1; min_stack_height = some 8 })

abbrev pub dup9 : Opcode
dup9 = new (136 ∷ []) "DUP9" (record plain { pushed_stack_items = 1; min_stack_height = some 9 })

abbrev pub dup10 : Opcode
dup10 = new (137 ∷ []) "DUP10" (record plain { pushed_stack_items = 1; min_stack_height = some 10 })

abbrev pub dup11 : Opcode
dup11 = new (138 ∷ []) "DUP11" (record plain { pushed_stack_items = 1; min_stack_height = some 11 })

abbrev pub dup12 : Opcode
dup12 = new (139 ∷ []) "DUP12" (record plain { pushed_stack_items = 1; min_stack_height = some 12 })

abbrev pub dup13 : Opcode
dup13 = new (140 ∷ []) "DUP13" (record plain { pushed_stack_items = 1; min_stack_height = some 13 })

abbrev pub dup14 : Opcode
dup14 = new (141 ∷ []) "DUP14" (record plain { pushed_stack_items = 1; min_stack_height = some 14 })

abbrev pub dup15 : Opcode
dup15 = new (142 ∷ []) "DUP15" (record plain { pushed_stack_items = 1; min_stack_height = some 15 })

abbrev pub dup16 : Opcode
dup16 = new (143 ∷ []) "DUP16" (record plain { pushed_stack_items = 1; min_stack_height = some 16 })

abbrev pub swap1 : Opcode
swap1 = new (144 ∷ []) "SWAP1" (record plain { min_stack_height = some 2 })

abbrev pub swap2 : Opcode
swap2 = new (145 ∷ []) "SWAP2" (record plain { min_stack_height = some 3 })

abbrev pub swap3 : Opcode
swap3 = new (146 ∷ []) "SWAP3" (record plain { min_stack_height = some 4 })

abbrev pub swap4 : Opcode
swap4 = new (147 ∷ []) "SWAP4" (record plain { min_stack_height = some 5 })

abbrev pub swap5 : Opcode
swap5 = new (148 ∷ []) "SWAP5" (record plain { min_stack_height = some 6 })

abbrev pub swap6 : Opcode
swap6 = new (149 ∷ []) "SWAP6" (record plain { min_stack_height = some 7 })

abbrev pub swap7 : Opcode
swap7 = new (150 ∷ []) "SWAP7" (record plain { min_stack_height = some 8 })

abbrev pub swap8 : Opcode
swap8 = new (151 ∷ []) "SWAP8" (record plain { min_stack_height = some 9 })

abbrev pub swap9 : Opcode
swap9 = new (152 ∷ []) "SWAP9" (record plain { min_stack_height = some 10 })

abbrev pub swap10 : Opcode
swap10 = new (153 ∷ []) "SWAP10" (record plain { min_stack_height = some 11 })

abbrev pub swap11 : Opcode
swap11 = new (154 ∷ []) "SWAP11" (record plain { min_stack_height = some 12 })

abbrev pub swap12 : Opcode
swap12 = new (155 ∷ []) "SWAP12" (record plain { min_stack_height = some 13 })

abbrev pub swap13 : Opcode
swap13 = new (156 ∷ []) "SWAP13" (record plain { min_stack_height = some 14 })

abbrev pub swap14 : Opcode
swap14 = new (157 ∷ []) "SWAP14" (record plain { min_stack_height = some 15 })

abbrev pub swap15 : Opcode
swap15 = new (158 ∷ []) "SWAP15" (record plain { min_stack_height = some 16 })

abbrev pub swap16 : Opcode
swap16 = new (159 ∷ []) "SWAP16" (record plain { min_stack_height = some 17 })
