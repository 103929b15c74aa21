-- ===== src/Vm/Opcodes/System.antt =====
-- src/ethereum_test_vm/opcodes.py, opcodes from 0xa0 on: logs, EOF, creation and calls.
use execution_spec_tests.Base.{true, [], ◌∷◌}
use execution_spec_tests.Vm.Opcode.{
  Opcode, Arg, plain, new, rjumpv_encoder, exchange_encoder, swapn_modifier, dupn_modifier,
  exchange_modifier,
}
use execution_spec_tests.Vm.Opcodes.Stack.{gas}

abbrev pub log0 : Opcode
log0 =
    new (160 ∷ []) "LOG0" (record plain { popped_stack_items = 2; kwargs = "offset" ∷ "size" ∷ [] })

abbrev pub log1 : Opcode
log1 =
    new (161 ∷ []) "LOG1"
      (record plain { popped_stack_items = 3; kwargs = "offset" ∷ "size" ∷ "topic_1" ∷ [] })

abbrev pub log2 : Opcode
log2 = new (162 ∷ []) "LOG2" (record plain {
  popped_stack_items = 4;
  kwargs = "offset" ∷ "size" ∷ "topic_1" ∷ "topic_2" ∷ [];
})

abbrev pub log3 : Opcode
log3 = new (163 ∷ []) "LOG3" (record plain {
  popped_stack_items = 5;
  kwargs = "offset" ∷ "size" ∷ "topic_1" ∷ "topic_2" ∷ "topic_3" ∷ [];
})

abbrev pub log4 : Opcode
log4 = new (164 ∷ []) "LOG4" (record plain {
  popped_stack_items = 6;
  kwargs = "offset" ∷ "size" ∷ "topic_1" ∷ "topic_2" ∷ "topic_3" ∷ "topic_4" ∷ [];
})

abbrev pub rjump : Opcode
rjump = new (224 ∷ []) "RJUMP" (record plain { data_portion_length = 2 })

abbrev pub dataload : Opcode
dataload =
    new (208 ∷ []) "DATALOAD"
      (record plain { popped_stack_items = 1; pushed_stack_items = 1; kwargs = "offset" ∷ [] })

abbrev pub dataloadn : Opcode
dataloadn =
    new (209 ∷ []) "DATALOADN" (record plain { pushed_stack_items = 1; data_portion_length = 2 })

abbrev pub datasize : Opcode
datasize = new (210 ∷ []) "DATASIZE" (record plain { pushed_stack_items = 1 })

abbrev pub datacopy : Opcode
datacopy =
    new (211 ∷ []) "DATACOPY"
      (record plain { popped_stack_items = 3; kwargs = "dest_offset" ∷ "offset" ∷ "size" ∷ [] })

abbrev pub rjumpi : Opcode
rjumpi = new (225 ∷ []) "RJUMPI" (record plain { popped_stack_items = 1; data_portion_length = 2 })

abbrev pub rjumpv : Opcode
rjumpv =
    new (226 ∷ []) "RJUMPV"
      (record plain { popped_stack_items = 1; data_portion_formatter = rjumpv_encoder })

abbrev pub callf : Opcode
callf = new (227 ∷ []) "CALLF" (record plain { data_portion_length = 2; unchecked_stack = true })

abbrev pub retf : Opcode
retf = new (228 ∷ []) "RETF" (record plain { terminating = true })

abbrev pub jumpf : Opcode
jumpf =
    new (229 ∷ []) "JUMPF"
      (record plain { data_portion_length = 2; terminating = true; unchecked_stack = true })

abbrev pub dupn : Opcode
dupn = new (230 ∷ []) "DUPN" (record plain {
  pushed_stack_items = 1;
  data_portion_length = 1;
  stack_properties_modifier = dupn_modifier;
})

abbrev pub swapn : Opcode
swapn =
    new (231 ∷ []) "SWAPN"
      (record plain { data_portion_length = 1; stack_properties_modifier = swapn_modifier })

abbrev pub exchange : Opcode
exchange = new (232 ∷ []) "EXCHANGE" (record plain {
  data_portion_length = 1;
  data_portion_formatter = exchange_encoder;
  stack_properties_modifier = exchange_modifier;
})

abbrev pub eofcreate : Opcode
eofcreate = new (236 ∷ []) "EOFCREATE" (record plain {
  popped_stack_items = 4;
  pushed_stack_items = 1;
  data_portion_length = 1;
  kwargs = "salt" ∷ "input_offset" ∷ "input_size" ∷ "value" ∷ [];
})

abbrev pub txcreate : Opcode
txcreate = new (237 ∷ []) "TXCREATE" (record plain {
  popped_stack_items = 5;
  pushed_stack_items = 1;
  kwargs = "tx_initcode_hash" ∷ "salt" ∷ "input_offset" ∷ "input_size" ∷ "value" ∷ [];
})

abbrev pub returncode : Opcode
returncode = new (238 ∷ []) "RETURNCODE" (record plain {
  popped_stack_items = 2;
  data_portion_length = 1;
  terminating = true;
  kwargs = "auxdata_offset" ∷ "auxdata_size" ∷ [];
})

abbrev pub create : Opcode
create = new (240 ∷ []) "CREATE" (record plain {
  popped_stack_items = 3;
  pushed_stack_items = 1;
  kwargs = "value" ∷ "offset" ∷ "size" ∷ [];
})

abbrev pub call : Opcode
call = new (241 ∷ []) "CALL" (record plain {
  popped_stack_items = 7;
  pushed_stack_items = 1;
  kwargs =
      "gas" ∷ "address" ∷ "value" ∷ "args_offset" ∷ "args_size" ∷ "ret_offset" ∷ "ret_size" ∷ [];
  kwargs_defaults = ("gas", Arg.code gas.code) ∷ [];
})

abbrev pub callcode : Opcode
callcode = new (242 ∷ []) "CALLCODE" (record plain {
  popped_stack_items = 7;
  pushed_stack_items = 1;
  kwargs =
      "gas" ∷ "address" ∷ "value" ∷ "args_offset" ∷ "args_size" ∷ "ret_offset" ∷ "ret_size" ∷ [];
  kwargs_defaults = ("gas", Arg.code gas.code) ∷ [];
})

abbrev pub return : Opcode
return =
    new (243 ∷ []) "RETURN"
      (record plain { popped_stack_items = 2; kwargs = "offset" ∷ "size" ∷ []; terminating = true })

abbrev pub delegatecall : Opcode
delegatecall = new (244 ∷ []) "DELEGATECALL" (record plain {
  popped_stack_items = 6;
  pushed_stack_items = 1;
  kwargs = "gas" ∷ "address" ∷ "args_offset" ∷ "args_size" ∷ "ret_offset" ∷ "ret_size" ∷ [];
  kwargs_defaults = ("gas", Arg.code gas.code) ∷ [];
})

abbrev pub create2 : Opcode
create2 = new (245 ∷ []) "CREATE2" (record plain {
  popped_stack_items = 4;
  pushed_stack_items = 1;
  kwargs = "value" ∷ "offset" ∷ "size" ∷ "salt" ∷ [];
})

abbrev pub extcall : Opcode
extcall = new (248 ∷ []) "EXTCALL" (record plain {
  popped_stack_items = 4;
  pushed_stack_items = 1;
  kwargs = "address" ∷ "args_offset" ∷ "args_size" ∷ "value" ∷ [];
})

abbrev pub extdelegatecall : Opcode
extdelegatecall = new (249 ∷ []) "EXTDELEGATECALL" (record plain {
  popped_stack_items = 3;
  pushed_stack_items = 1;
  kwargs = "address" ∷ "args_offset" ∷ "args_size" ∷ [];
})

abbrev pub staticcall : Opcode
staticcall = new (250 ∷ []) "STATICCALL" (record plain {
  popped_stack_items = 6;
  pushed_stack_items = 1;
  kwargs = "gas" ∷ "address" ∷ "args_offset" ∷ "args_size" ∷ "ret_offset" ∷ "ret_size" ∷ [];
  kwargs_defaults = ("gas", Arg.code gas.code) ∷ [];
})

abbrev pub extstaticcall : Opcode
extstaticcall = new (251 ∷ []) "EXTSTATICCALL" (record plain {
  popped_stack_items = 3;
  pushed_stack_items = 1;
  kwargs = "address" ∷ "args_offset" ∷ "args_size" ∷ [];
})

abbrev pub returndataload : Opcode
returndataload =
    new (247 ∷ []) "RETURNDATALOAD"
      (record plain { popped_stack_items = 1; pushed_stack_items = 1; kwargs = "offset" ∷ [] })

abbrev pub revert : Opcode
revert =
    new (253 ∷ []) "REVERT"
      (record plain { popped_stack_items = 2; kwargs = "offset" ∷ "size" ∷ []; terminating = true })

abbrev pub invalid : Opcode
invalid = new (254 ∷ []) "INVALID" (record plain { terminating = true })

abbrev pub selfdestruct : Opcode
selfdestruct =
    new (255 ∷ []) "SELFDESTRUCT" (record plain { popped_stack_items = 1; kwargs = "address" ∷ [] })
