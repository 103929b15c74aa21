-- ===== src/Lib.antt =====
-- Verification of the core of execution-spec-tests, the library with which Ethereum execution
-- tests are written and filled: the pure computations on which a filled test depends.
--
-- Base holds what the other modules share: Boolean tests on native numbers, lists, Python's
-- integers (Int), dicts (Dicts), raised exceptions as a result type (Outcome), and checks that
-- raise an error with its data (Checks).
--
-- Vm.Bytecode is src/ethereum_test_vm/bytecode.py. A Bytecode is a record of its name, its bytes,
-- its four stack counts as integers and its terminating flag; `new` is `__new__`, `join` the body
-- of `__add__`, `add` and `radd` the operators with all their operands, `mul` is `__mul__` and
-- `eq` is `__eq__`. Effect, Validity and Execution hold the proofs; Execution runs instructions
-- on a stack height, independently of the counts.
--
-- Vm.Opcode and Vm.Call are the classes Opcode and Macro of src/ethereum_test_vm/opcodes.py:
-- `new` is `Opcode.__new__`, `get_item` is `__getitem__`, `call` is `__call__` on positional
-- arguments and `call_named` on keywords; `stack_argument` is `_stack_argument_to_bytecode`. A
-- data portion of a fixed length takes bytes, a hex string that stands for them, or an integer;
-- the two formatters take bytes and integers, one by one, in a tuple or in another iterable, but
-- no strings. The loop of `_get_int_size` takes the number itself as fuel, which is enough since
-- every turn divides it by 256. Vm.Opcodes holds the members of the enumeration, each under its
-- name in lower case (`modulo` is MOD), and the list of them; Vm.Opcodes.Counts compares them
-- with a table of what each instruction does to the stack, written by the bytes of the
-- instructions and not by the members. Vm.Machine is an independent reading of the bytes: a step
-- relation on a position, a stack and a world, with the instructions that push and jump and a
-- parameter for all others.
--
-- Tools.Generators is src/ethereum_test_tools/tools_code/generators.py: `conditional`,
-- `while_loop` and `switch` are `__new__` of Conditional, While and Switch, with one function for
-- each kind of code; the loop over the cases of a switch is a recursion that wraps the last case
-- first. Layout, Conditional, Branch, Choice, While, Exit, Layer and Cases hold the proofs on
-- legacy code: the bytes that are made, where they stand and what the machine does with them.
-- Tools.Generators.Initcode and Tools.Generators.Measure are the classes Initcode and
-- CodeGasMeasure.
--
-- Forks.Fork is the tree of classes of src/ethereum_test_forks/forks/forks.py with the order that
-- `BaseForkMeta` in src/ethereum_test_forks/base_fork.py puts on them; Forks.Selection is
-- src/ethereum_test_forks/helpers.py, where a Python set is a list that only membership reads.
-- The walk up the bases takes one step more than the position of the class in the file, which is
-- enough since each class stands below its base. Forks.Transition is
-- src/ethereum_test_forks/transition_base_fork.py with the forks of forks/transition.py; a method
-- of a fork is a function of the fork, the block and the time there.
--
-- Forks.Costs, Forks.Gas, Forks.BaseFee and Forks.Blobs are the methods of the fork classes that
-- compute gas, base fees and blob gas; Forks.Arith is src/ethereum_test_forks/forks/helpers.py. A
-- method that a class inherits is resolved by a table over the classes. Python's integers are
-- natural numbers here where the code never makes them negative, and Int elsewhere.
-- `fake_exponential` takes fuel: its terms fall once the index passes the quotient of numerator
-- and denominator, so some amount is enough where the denominator is not zero.
--
-- BaseTypes.Storage and BaseTypes.Account are the classes Storage and Account of
-- src/ethereum_test_base_types/composite_types.py, and Types.Alloc is the class Alloc of
-- src/ethereum_test_types/account_types.py. A dict is an association list in insertion order
-- (Base.Dicts), an address a number, and a comparison that returns nothing or raises an error
-- with its data is a Check (Base.Checks). A field that is not in `model_fields_set` is an Option
-- without value. The operations on Storage take the numbers that BaseTypes.Number makes of Python
-- integers; where a method goes through a set of keys the model takes the order of the dict,
-- which decides only which of several errors is raised first.
--
-- Types.Trie and Types.Commit are src/ethereum_test_types/trie.py: the nodes, the compact form of
-- keys and `patricialize` in the first, the entries of a trie, `_prepare_trie` and `root` in the
-- second. `rlp.encode` and `keccak256` are third party and stand as parameters; Types.Commit.Root
-- assumes of them that a hash has 32 bytes and that RLP never shortens bytes. A reference to a
-- subnode is its encoding, as in the code, and Types.Trie.Paths follows such references
-- independently of how they are built. `patricialize` takes fuel; `root` gives it one more than
-- the longest key: every call on two or more entries goes at least one nibble down their keys.
--
-- Types.State is the class State of src/ethereum_test_types/account_types.py with its functions,
-- and `Alloc.state_root`, which makes a state of an allocation: addresses and slots become bytes
-- there, and a balance that does not fit a word is refused.
--
-- Types.AccessList is src/ethereum_test_types/block_access_list/: `validate_bal_ordering` is
-- `_validate_bal_ordering`, Expectation holds `verify_against` with
-- `_compare_account_expectations` and `BalAccountAbsentValues.validate_against`, and Modifiers
-- the functions of modifiers.py. One record stands for the four classes of a change; an error is
-- a constructor for each message. The closures that a modifier makes remember what they have
-- found; that is an argument here.
--
-- Not modelled: the MSTORE macro, the tables of the opcodes, precompiles and engine versions of a
-- fork, what EOF code does, and everything that signs, hashes, validates by pydantic, or talks to
-- a client, a file or the network.
pub mod Base
pub mod BaseTypes
pub mod Types
pub mod Vm
pub mod Tools
pub mod Forks
