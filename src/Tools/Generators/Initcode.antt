-- ===== src/Tools/Generators/Initcode.antt =====
-- src/ethereum_test_tools/tools_code/generators.py: the class Initcode.
pub mod Layout
pub mod Copy
pub mod Deployed
pub mod Gas
mod Examples
use execution_spec_tests.Base.{
  ℕ, ◌+◌, ◌-◌, ◌*◌, ◌/◌, Option, none, some, List, [], ◌∷◌, ◌++◌, String, false, length, replicate,
  leb, ltb, ◌==◌, if◌then◌else◌, Result, ok, err, guard, ◌>>=◌, ◌>>◌, assertion_error, value_error,
}
use execution_spec_tests.Vm.Bytecode.{Bytecode, empty, join, len}
use execution_spec_tests.Vm.Opcode.{given}
use execution_spec_tests.Vm.Call.{call}
use execution_spec_tests.Vm.Opcodes.Plain.{codecopy}
use execution_spec_tests.Vm.Opcodes.Stack.{push1, push2}
use execution_spec_tests.Vm.Opcodes.Reach.{dup2, dup3}
use execution_spec_tests.Vm.Opcodes.System.{return as op_return}
use execution_spec_tests.Forks.Gas.{words}
use execution_spec_tests.Tools.Generators.{int_arg}

pub record Initcode : Type 0 where
  pub code : Bytecode
  pub deploy_code : List ℕ
  pub execution_gas : ℕ
  pub deployment_gas : ℕ

-- The instructions in front of the code to deploy, for a prefix and the length of that code.
unfoldable pub instructions : Bytecode → ℕ → Result Bytecode
instructions initcode_prefix code_length = do
  size ← call push2 (int_arg code_length ∷ []) false
  origin ← call push1 (int_arg 0 ∷ []) false
  let start = join (join (join initcode_prefix size) origin) dup2.code
  guard (leb (11 + len initcode_prefix) 255) assertion_error
  offset ← call push1 (int_arg (11 + len initcode_prefix) ∷ []) false
  ok (join (join (join (join start offset) dup3.code) codecopy.code) op_return.code)

-- `execution_gas` at the end: the first assignment is overwritten by the second one.
unfoldable pub initcode_gas : (initcode_prefix_execution_gas code_length : ℕ) → ℕ
initcode_gas initcode_prefix_execution_gas code_length =
    let execution_gas : ℕ = 3 in
    let execution_gas = execution_gas + 3 in
    let execution_gas = execution_gas + 3 in
    let execution_gas = execution_gas + 3 in
    let execution_gas = execution_gas + 3 in
    let execution_gas =
      execution_gas
      + (3 + 3 * words code_length + 3 * code_length + code_length * code_length / 512) in
    execution_gas + 0

-- Python's `bytes([b] * n)`.
abbrev pub repeated : ℕ → ℕ → Result (List ℕ)
repeated b n = if n == 0 then ok [] else guard (ltb b 256) value_error >> ok (replicate n b)

unfoldable pub padding : Option ℕ → ℕ → ℕ → Result (List ℕ)
padding none size padding_byte = ok []
padding (some initcode_length) size padding_byte =
    guard (leb size initcode_length) assertion_error
    >> repeated padding_byte (initcode_length - size)

-- `Initcode.__new__`
unfoldable pub initcode :
    (deploy_code : Option (List ℕ)) (initcode_length : Option ℕ) (initcode_prefix : Option Bytecode)
    (initcode_prefix_execution_gas padding_byte : ℕ)
    → String
    → Result Initcode
initcode deploy_code initcode_length initcode_prefix prefix_gas padding_byte name = do
  let deployed = given deploy_code []
  head ← instructions (given initcode_prefix (empty "")) (length deployed)
  let plus = head.bytes ++ deployed
  padding_bytes ← padding initcode_length (length plus) padding_byte
  ok record {
    code = record head { name = name; bytes = plus ++ padding_bytes; terminating = false };
    deploy_code = deployed;
    execution_gas = initcode_gas prefix_gas (length deployed);
    deployment_gas = 200 * length deployed;
  }
