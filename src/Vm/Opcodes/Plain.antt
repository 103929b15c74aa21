-- ===== src/Vm/Opcodes/Plain.antt =====
-- src/ethereum_test_vm/opcodes.py, opcodes 0x00 to 0x4a: arithmetic, hashing, and what a contract reads of its environment.
use execution_spec_tests.Base.{true, [], ◌∷◌}
use execution_spec_tests.Vm.Opcode.{Opcode, plain, new}

abbrev pub stop : Opcode
stop = new (0 ∷ []) "STOP" (record plain { terminating = true })

abbrev pub add : Opcode
add = new (1 ∷ []) "ADD" (record plain { popped_stack_items = 2; pushed_stack_items = 1 })

abbrev pub mul : Opcode
mul = new (2 ∷ []) "MUL" (record plain { popped_stack_items = 2; pushed_stack_items = 1 })

abbrev pub sub : Opcode
sub = new (3 ∷ []) "SUB" (record plain { popped_stack_items = 2; pushed_stack_items = 1 })

abbrev pub div : Opcode
div = new (4 ∷ []) "DIV" (record plain { popped_stack_items = 2; pushed_stack_items = 1 })

abbrev pub sdiv : Opcode
sdiv = new (5 ∷ []) "SDIV" (record plain { popped_stack_items = 2; pushed_stack_items = 1 })

abbrev pub modulo : Opcode
modulo = new (6 ∷ []) "MOD" (record plain { popped_stack_items = 2; pushed_stack_items = 1 })

abbrev pub smod : Opcode
smod = new (7 ∷ []) "SMOD" (record plain { popped_stack_items = 2; pushed_stack_items = 1 })

abbrev pub addmod : Opcode
addmod = new (8 ∷ []) "ADDMOD" (record plain { popped_stack_items = 3; pushed_stack_items = 1 })

abbrev pub mulmod : Opcode
mulmod = new (9 ∷ []) "MULMOD" (record plain { popped_stack_items = 3; pushed_stack_items = 1 })

abbrev pub exp : Opcode
exp = new (10 ∷ []) "EXP" (record plain { popped_stack_items = 2; pushed_stack_items = 1 })

abbrev pub signextend : Opcode
signextend =
    new (11 ∷ []) "SIGNEXTEND" (record plain { popped_stack_items = 2; pushed_stack_items = 1 })

abbrev pub lt : Opcode
lt = new (16 ∷ []) "LT" (record plain { popped_stack_items = 2; pushed_stack_items = 1 })

abbrev pub gt : Opcode
gt = new (17 ∷ []) "GT" (record plain { popped_stack_items = 2; pushed_stack_items = 1 })

abbrev pub slt : Opcode
slt = new (18 ∷ []) "SLT" (record plain { popped_stack_items = 2; pushed_stack_items = 1 })

abbrev pub sgt : Opcode
sgt = new (19 ∷ []) "SGT" (record plain { popped_stack_items = 2; pushed_stack_items = 1 })

abbrev pub eq : Opcode
eq = new (20 ∷ []) "EQ" (record plain { popped_stack_items = 2; pushed_stack_items = 1 })

abbrev pub iszero : Opcode
iszero = new (21 ∷ []) "ISZERO" (record plain { popped_stack_items = 1; pushed_stack_items = 1 })

abbrev pub and : Opcode
and = new (22 ∷ []) "AND" (record plain { popped_stack_items = 2; pushed_stack_items = 1 })

abbrev pub or : Opcode
or = new (23 ∷ []) "OR" (record plain { popped_stack_items = 2; pushed_stack_items = 1 })

abbrev pub xor : Opcode
xor = new (24 ∷ []) "XOR" (record plain { popped_stack_items = 2; pushed_stack_items = 1 })

abbrev pub not : Opcode
not = new (25 ∷ []) "NOT" (record plain { popped_stack_items = 1; pushed_stack_items = 1 })

abbrev pub byte : Opcode
byte = new (26 ∷ []) "BYTE" (record plain { popped_stack_items = 2; pushed_stack_items = 1 })

abbrev pub shl : Opcode
shl = new (27 ∷ []) "SHL" (record plain { popped_stack_items = 2; pushed_stack_items = 1 })

abbrev pub shr : Opcode
shr = new (28 ∷ []) "SHR" (record plain { popped_stack_items = 2; pushed_stack_items = 1 })

abbrev pub sar : Opcode
sar = new (29 ∷ []) "SAR" (record plain { popped_stack_items = 2; pushed_stack_items = 1 })

abbrev pub clz : Opcode
clz = new (30 ∷ []) "CLZ" (record plain { popped_stack_items = 1; pushed_stack_items = 1 })

abbrev pub sha3 : Opcode
sha3 = new (32 ∷ []) "SHA3" (record plain {
  popped_stack_items = 2;
  pushed_stack_items = 1;
  kwargs = "offset" ∷ "size" ∷ [];
})

abbrev pub address : Opcode
address = new (48 ∷ []) "ADDRESS" (record plain { pushed_stack_items = 1 })

abbrev pub balance : Opcode
balance =
    new (49 ∷ []) "BALANCE"
      (record plain { popped_stack_items = 1; pushed_stack_items = 1; kwargs = "address" ∷ [] })

abbrev pub origin : Opcode
origin = new (50 ∷ []) "ORIGIN" (record plain { pushed_stack_items = 1 })

abbrev pub caller : Opcode
caller = new (51 ∷ []) "CALLER" (record plain { pushed_stack_items = 1 })

abbrev pub callvalue : Opcode
callvalue = new (52 ∷ []) "CALLVALUE" (record plain { pushed_stack_items = 1 })

abbrev pub calldataload : Opcode
calldataload =
    new (53 ∷ []) "CALLDATALOAD"
      (record plain { popped_stack_items = 1; pushed_stack_items = 1; kwargs = "offset" ∷ [] })

abbrev pub calldatasize : Opcode
calldatasize = new (54 ∷ []) "CALLDATASIZE" (record plain { pushed_stack_items = 1 })

abbrev pub calldatacopy : Opcode
calldatacopy =
    new (55 ∷ []) "CALLDATACOPY"
      (record plain { popped_stack_items = 3; kwargs = "dest_offset" ∷ "offset" ∷ "size" ∷ [] })

abbrev pub codesize : Opcode
codesize = new (56 ∷ []) "CODESIZE" (record plain { pushed_stack_items = 1 })

abbrev pub codecopy : Opcode
codecopy =
    new (57 ∷ []) "CODECOPY"
      (record plain { popped_stack_items = 3; kwargs = "dest_offset" ∷ "offset" ∷ "size" ∷ [] })

abbrev pub gasprice : Opcode
gasprice = new (58 ∷ []) "GASPRICE" (record plain { pushed_stack_items = 1 })

abbrev pub extcodesize : Opcode
extcodesize =
    new (59 ∷ []) "EXTCODESIZE"
      (record plain { popped_stack_items = 1; pushed_stack_items = 1; kwargs = "address" ∷ [] })

abbrev pub extcodecopy : Opcode
extcodecopy = new (60 ∷ []) "EXTCODECOPY" (record plain {
  popped_stack_items = 4;
  kwargs = "address" ∷ "dest_offset" ∷ "offset" ∷ "size" ∷ [];
})

abbrev pub returndatasize : Opcode
returndatasize = new (61 ∷ []) "RETURNDATASIZE" (record plain { pushed_stack_items = 1 })

abbrev pub returndatacopy : Opcode
returndatacopy =
    new (62 ∷ []) "RETURNDATACOPY"
      (record plain { popped_stack_items = 3; kwargs = "dest_offset" ∷ "offset" ∷ "size" ∷ [] })

abbrev pub extcodehash : Opcode
extcodehash =
    new (63 ∷ []) "EXTCODEHASH"
      (record plain { popped_stack_items = 1; pushed_stack_items = 1; kwargs = "address" ∷ [] })

abbrev pub blockhash : Opcode
blockhash =
    new (64 ∷ []) "BLOCKHASH" (record plain {
      popped_stack_items = 1;
      pushed_stack_items = 1;
      kwargs = "block_number" ∷ [];
    })

abbrev pub coinbase : Opcode
coinbase = new (65 ∷ []) "COINBASE" (record plain { pushed_stack_items = 1 })

abbrev pub timestamp : Opcode
timestamp = new (66 ∷ []) "TIMESTAMP" (record plain { pushed_stack_items = 1 })

abbrev pub number : Opcode
number = new (67 ∷ []) "NUMBER" (record plain { pushed_stack_items = 1 })

abbrev pub prevrandao : Opcode
prevrandao = new (68 ∷ []) "PREVRANDAO" (record plain { pushed_stack_items = 1 })

abbrev pub gaslimit : Opcode
gaslimit = new (69 ∷ []) "GASLIMIT" (record plain { pushed_stack_items = 1 })

abbrev pub chainid : Opcode
chainid = new (70 ∷ []) "CHAINID" (record plain { pushed_stack_items = 1 })

abbrev pub selfbalance : Opcode
selfbalance = new (71 ∷ []) "SELFBALANCE" (record plain { pushed_stack_items = 1 })

abbrev pub basefee : Opcode
basefee = new (72 ∷ []) "BASEFEE" (record plain { pushed_stack_items = 1 })

abbrev pub blobhash : Opcode
blobhash =
    new (73 ∷ []) "BLOBHASH"
      (record plain { popped_stack_items = 1; pushed_stack_items = 1; kwargs = "index" ∷ [] })

abbrev pub blobbasefee : Opcode
blobbasefee =
    new (74 ∷ []) "BLOBBASEFEE" (record plain { popped_stack_items = 0; pushed_stack_items = 1 })
