-- ===== src/Vm/Opcodes.antt =====
-- src/ethereum_test_vm/opcodes.py: the tables of all opcodes.
pub mod Plain
pub mod Stack
pub mod Reach
pub mod System
pub mod Table
pub mod Counts
mod Examples
use execution_spec_tests.Base.{ℕ, List, [], ◌∷◌, map}
use execution_spec_tests.Vm.Opcode.{Opcode, plain, new}
use execution_spec_tests.Vm.Opcodes.Plain.{
  stop, add, mul, sub, div, sdiv, modulo, smod, addmod, mulmod, exp, signextend, lt, gt, slt, sgt,
  eq, iszero, and, or, xor, not, byte, shl, shr, sar, clz, sha3, address, balance, origin, caller,
  callvalue, calldataload, calldatasize, calldatacopy, codesize, codecopy, gasprice, extcodesize,
  extcodecopy, returndatasize, returndatacopy, extcodehash, blockhash, coinbase, timestamp, number,
  prevrandao, gaslimit, chainid, selfbalance, basefee, blobhash, blobbasefee,
}
use execution_spec_tests.Vm.Opcodes.Stack.{
  pop, mload, mstore, mstore8, sload, sstore, jump, jumpi, pc, msize, gas, jumpdest, noop, tload,
  tstore, mcopy, push0, push1, push2, push3, push4, push5, push6, push7, push8, push9, push10,
  push11, push12, push13, push14, push15, push16, push17, push18, push19, push20, push21, push22,
  push23, push24, push25, push26, push27, push28, push29, push30, push31, push32,
}
use execution_spec_tests.Vm.Opcodes.Reach.{
  dup1, dup2, dup3, dup4, dup5, dup6, dup7, dup8, dup9, dup10, dup11, dup12, dup13, dup14, dup15,
  dup16, swap1, swap2, swap3, swap4, swap5, swap6, swap7, swap8, swap9, swap10, swap11, swap12,
  swap13, swap14, swap15, swap16,
}
use execution_spec_tests.Vm.Opcodes.System.{
  log0, log1, log2, log3, log4, rjump, dataload, dataloadn, datasize, datacopy, rjumpi, rjumpv,
  callf, retf, jumpf, dupn, swapn, exchange, eofcreate, txcreate, returncode, create, call,
  callcode, return, delegatecall, create2, extcall, extdelegatecall, staticcall, extstaticcall,
  returndataload, revert, invalid, selfdestruct,
}

-- The members of the enumeration, in its order.
unfoldable pub opcodes : List Opcode
opcodes =
    stop ∷ add ∷ mul ∷ sub ∷ div ∷ sdiv ∷ modulo ∷ smod ∷ addmod ∷ mulmod ∷ exp ∷ signextend ∷ lt
    ∷ gt ∷ slt ∷ sgt ∷ eq ∷ iszero ∷ and ∷ or ∷ xor ∷ not ∷ byte ∷ shl ∷ shr ∷ sar ∷ clz ∷ sha3
    ∷ address ∷ balance ∷ origin ∷ caller ∷ callvalue ∷ calldataload ∷ calldatasize ∷ calldatacopy
    ∷ codesize ∷ codecopy ∷ gasprice ∷ extcodesize ∷ extcodecopy ∷ returndatasize ∷ returndatacopy
    ∷ extcodehash ∷ blockhash ∷ coinbase ∷ timestamp ∷ number ∷ prevrandao ∷ gaslimit ∷ chainid
    ∷ selfbalance ∷ basefee ∷ blobhash ∷ blobbasefee ∷ pop ∷ mload ∷ mstore ∷ mstore8 ∷ sload
    ∷ sstore ∷ jump ∷ jumpi ∷ pc ∷ msize ∷ gas ∷ jumpdest ∷ noop ∷ tload ∷ tstore ∷ mcopy ∷ push0
    ∷ push1 ∷ push2 ∷ push3 ∷ push4 ∷ push5 ∷ push6 ∷ push7 ∷ push8 ∷ push9 ∷ push10 ∷ push11
    ∷ push12 ∷ push13 ∷ push14 ∷ push15 ∷ push16 ∷ push17 ∷ push18 ∷ push19 ∷ push20 ∷ push21
    ∷ push22 ∷ push23 ∷ push24 ∷ push25 ∷ push26 ∷ push27 ∷ push28 ∷ push29 ∷ push30 ∷ push31
    ∷ push32 ∷ dup1 ∷ dup2 ∷ dup3 ∷ dup4 ∷ dup5 ∷ dup6 ∷ dup7 ∷ dup8 ∷ dup9 ∷ dup10 ∷ dup11 ∷ dup12
    ∷ dup13 ∷ dup14 ∷ dup15 ∷ dup16 ∷ swap1 ∷ swap2 ∷ swap3 ∷ swap4 ∷ swap5 ∷ swap6 ∷ swap7 ∷ swap8
    ∷ swap9 ∷ swap10 ∷ swap11 ∷ swap12 ∷ swap13 ∷ swap14 ∷ swap15 ∷ swap16 ∷ log0 ∷ log1 ∷ log2
    ∷ log3 ∷ log4 ∷ rjump ∷ dataload ∷ dataloadn ∷ datasize ∷ datacopy ∷ rjumpi ∷ rjumpv ∷ callf
    ∷ retf ∷ jumpf ∷ dupn ∷ swapn ∷ exchange ∷ eofcreate ∷ txcreate ∷ returncode ∷ create ∷ call
    ∷ callcode ∷ return ∷ delegatecall ∷ create2 ∷ extcall ∷ extdelegatecall ∷ staticcall
    ∷ extstaticcall ∷ returndataload ∷ revert ∷ invalid ∷ selfdestruct ∷ []

-- The bytes of the enumeration of undefined opcodes, in its order.
abbrev pub undefined_bytes : List ℕ
undefined_bytes =
    12 ∷ 13 ∷ 14 ∷ 15 ∷ 30 ∷ 31 ∷ 33 ∷ 34 ∷ 35 ∷ 36 ∷ 37 ∷ 38 ∷ 39 ∷ 40 ∷ 41 ∷ 42 ∷ 43 ∷ 44 ∷ 45
    ∷ 46 ∷ 47 ∷ 75 ∷ 76 ∷ 77 ∷ 78 ∷ 79 ∷ 165 ∷ 166 ∷ 167 ∷ 168 ∷ 169 ∷ 170 ∷ 171 ∷ 172 ∷ 173 ∷ 174
    ∷ 175 ∷ 176 ∷ 177 ∷ 178 ∷ 179 ∷ 180 ∷ 181 ∷ 182 ∷ 183 ∷ 184 ∷ 185 ∷ 186 ∷ 187 ∷ 188 ∷ 189 ∷ 190
    ∷ 191 ∷ 192 ∷ 193 ∷ 194 ∷ 195 ∷ 196 ∷ 197 ∷ 198 ∷ 199 ∷ 200 ∷ 201 ∷ 202 ∷ 203 ∷ 204 ∷ 205 ∷ 206
    ∷ 207 ∷ 212 ∷ 213 ∷ 214 ∷ 215 ∷ 216 ∷ 217 ∷ 218 ∷ 219 ∷ 220 ∷ 221 ∷ 222 ∷ 223 ∷ 233 ∷ 234 ∷ 235
    ∷ 239 ∷ 246 ∷ 252 ∷ []

unfoldable pub undefined_opcodes : List Opcode
undefined_opcodes = map (λ b. new (b ∷ []) "" plain) undefined_bytes

-- `_push_opcodes_byte_list`
unfoldable pub push_opcodes : List Opcode
push_opcodes =
    push1 ∷ push2 ∷ push3 ∷ push4 ∷ push5 ∷ push6 ∷ push7 ∷ push8 ∷ push9 ∷ push10 ∷ push11 ∷ push12
    ∷ push13 ∷ push14 ∷ push15 ∷ push16 ∷ push17 ∷ push18 ∷ push19 ∷ push20 ∷ push21 ∷ push22
    ∷ push23 ∷ push24 ∷ push25 ∷ push26 ∷ push27 ∷ push28 ∷ push29 ∷ push30 ∷ push31 ∷ push32 ∷ []
