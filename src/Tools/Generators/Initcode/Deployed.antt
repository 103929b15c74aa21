-- ===== src/Tools/Generators/Initcode/Deployed.antt =====
-- What the code of Initcode in src/ethereum_test_tools/tools_code/generators.py deploys, in the virtual
-- machine.
use execution_spec_tests.Base.{
  ℕ, ◌+◌, ◌*◌, ◌^◌, ◌<◌, ◌≡◌, refl, sym, ap, ◌∙◌, subst, false, Option, none, some, List, [], ◌∷◌,
  ◌++◌, append_assoc, String, length, length-append, take, drop, get_elem?, arith, ok,
}
use execution_spec_tests.Vm.Bytecode.{Bytecode}
use execution_spec_tests.Vm.Opcode.{given}
use execution_spec_tests.Vm.Machine.{State, at, scan, IsWhole, Steps}
use execution_spec_tests.Vm.Machine.Jumps.{Steps-move, Runs}
use execution_spec_tests.Tools.Generators.Initcode.{
  Initcode, instructions, padding, initcode, initcode_gas,
}
use execution_spec_tests.Tools.Generators.Initcode.Layout.{
  arguments, length-arguments, instructions-Makes,
}
use execution_spec_tests.Tools.Generators.Initcode.Copy.{
  arguments-Runs, Padded, initcode_size, padding_lem, full, length-full, get-full, copy-full,
}

-- What an initcode for a code does, which calls for its bytes, size and gas.
pub record Deploys {W : Type 0} (Other : List ℕ → State W → State W → Type 0)
    (deploy prefix : List ℕ) (size : ℕ) (s r : List ℕ) (w u : W) (i : Initcode) : Type 0 where
  pub runs :
      Steps Other i.code.bytes (at 0 s w) (
        at (length prefix + 9) (0 ∷ (11 + length prefix) ∷ length deploy ∷ 0 ∷ length deploy ∷ r) u)
  pub copies : get_elem? i.code.bytes (length prefix + 9) ≡ some 57
  pub returns : get_elem? i.code.bytes (length prefix + 10) ≡ some 243
  pub copied : take (length deploy) (drop (11 + length prefix) i.code.bytes) ≡ deploy
  pub sized : length i.code.bytes ≡ size
  pub deployed : i.deploy_code ≡ deploy
  pub charged : i.deployment_gas ≡ 200 * length deploy

full-Deploys :
    {W : Type 0} (Other : List ℕ → State W → State W → Type 0) (deploy prefix rest : List ℕ)
    (size : ℕ) (s r : List ℕ) (w u : W) (i : Initcode)
    → length deploy < 65536
    → length prefix < 245
    → IsWhole prefix
    → Runs Other prefix s w r u
    → i.code.bytes ≡ full prefix deploy rest
    → initcode_size (length prefix) (length deploy) + length rest ≡ size
    → size < 2 ^ 256
    → i.deploy_code ≡ deploy
    → i.deployment_gas ≡ 200 * length deploy
    → Deploys Other deploy prefix size s r w u i
unfolding scan
full-Deploys Other deploy prefix rest size s r w u i small short whole run q sized bound d g =
    record {
      runs =
          subst
            (λ b. Steps Other b (at 0 s w) (
              at (length prefix + 9)
                (0 ∷ (11 + length prefix) ∷ length deploy ∷ 0 ∷ length deploy ∷ r) u))
            (sym q)
            (Steps-move Other (omega (arith, length-arguments prefix (length deploy))) (
              arguments-Runs Other prefix (length deploy) s r w u small short whole run
                (full prefix deploy rest) 0
                record {
                  before = [];
                  after = 57 ∷ 243 ∷ (deploy ++ rest);
                  parts = refl;
                  position = refl;
                  whole = refl;
                }
                (omega (arith, length-full prefix deploy rest))));
      copies =
          subst (λ b. get_elem? b (length prefix + 9) ≡ some 57) (sym q)
            (get-full prefix deploy rest).0;
      returns =
          subst (λ b. get_elem? b (length prefix + 10) ≡ some 243) (sym q)
            (get-full prefix deploy rest).1;
      copied =
          subst (λ b. take (length deploy) (drop (11 + length prefix) b) ≡ deploy) (sym q)
            (copy-full prefix deploy rest);
      sized = ap length q ∙ length-full prefix deploy rest ∙ sized;
      deployed = d;
      charged = g;
    }

Padded-bound :
    (initcode_length : Option ℕ) (size padding_byte : ℕ)
    → Padded initcode_length size padding_byte
    → size < 2 ^ 256
    → given initcode_length size < 2 ^ 256
Padded-bound none size padding_byte h small = small
Padded-bound (some l) size padding_byte h small = h.1

-- Say a code has less than 2^16 bytes, a prefix less than 245 and all the data of its pushes, and the
-- prefix runs through from one stack and world to another. Then Initcode makes an initcode, of the
-- length that is asked for if that is enough. Run from its start, it comes to a CODECOPY and a
-- RETURN with the stack of a copy to offset 0 and of the return of it above what the prefix left;
-- the bytes that are copied are the code, and its deployment costs 200 a byte.
pub initcode_lem :
    {W : Type 0} (Other : List ℕ → State W → State W → Type 0) (deploy : List ℕ)
    (initcode_length : Option ℕ) (prefix : Bytecode) (prefix_gas padding_byte : ℕ) (name : String)
    (s r : List ℕ) (w u : W)
    → length deploy < 65536
    → length prefix.bytes < 245
    → Padded initcode_length (initcode_size (length prefix.bytes) (length deploy)) padding_byte
    → IsWhole prefix.bytes
    → Runs Other prefix.bytes s w r u
    → (i : Initcode) × (initcode
          (some deploy)
          initcode_length
          (some prefix)
          prefix_gas
          padding_byte
          name
        ≡ ok i)
      × Deploys Other deploy prefix.bytes
          (given initcode_length (initcode_size (length prefix.bytes) (length deploy)))
          s
          r
          w
          u
          i
unfolding initcode
initcode_lem Other deploy initcode_length prefix prefix_gas padding_byte name s r w u small short
      padded whole run =
    let (head, e, b) = instructions-Makes prefix (length deploy) small short in
    let (rest, f, size) =
      padding_lem initcode_length (initcode_size (length prefix.bytes) (length deploy)) padding_byte
        padded in
    built head rest e b f size
  where
    joined :
        (head rest : List ℕ)
        → head ≡ arguments prefix.bytes (length deploy) ++ (57 ∷ 243 ∷ [])
        → (head ++ deploy) ++ rest ≡ full prefix.bytes deploy rest
    joined head rest b = rw b (simp append_assoc)

    head_size :
        (head : List ℕ)
        → head ≡ arguments prefix.bytes (length deploy) ++ (57 ∷ 243 ∷ [])
        → length (head ++ deploy) ≡ initcode_size (length prefix.bytes) (length deploy)
    head_size head b = omega (
      arith,
      length-append head deploy,
      ap length b,
      length-append (arguments prefix.bytes (length deploy)) (57 ∷ 243 ∷ []),
      length-arguments prefix.bytes (length deploy),
    )

    built :
        (head : Bytecode) (rest : List ℕ)
        → instructions prefix (length deploy) ≡ ok head
        → head.bytes ≡ arguments prefix.bytes (length deploy) ++ (57 ∷ 243 ∷ [])
        → padding initcode_length (initcode_size (length prefix.bytes) (length deploy)) padding_byte
          ≡ ok rest
        → initcode_size (length prefix.bytes) (length deploy) + length rest
          ≡ given initcode_length (initcode_size (length prefix.bytes) (length deploy))
        → (i : Initcode) × (initcode
              (some deploy)
              initcode_length
              (some prefix)
              prefix_gas
              padding_byte
              name
            ≡ ok i)
          × Deploys Other deploy prefix.bytes
              (given initcode_length (initcode_size (length prefix.bytes) (length deploy)))
              s
              r
              w
              u
              i
    built head rest e b f size = (
      record {
        code = record head {
          name = name;
          bytes = (head.bytes ++ deploy) ++ rest;
          terminating = false;
        };
        deploy_code = deploy;
        execution_gas = initcode_gas prefix_gas (length deploy);
        deployment_gas = 200 * length deploy;
      },
      rw (e, head_size head.bytes b, f) refl,
      full-Deploys Other deploy prefix.bytes rest _ s r w u _ small short whole run
          (joined head.bytes rest b) size
          (Padded-bound initcode_length (initcode_size (length prefix.bytes) (length deploy))
            padding_byte padded (omega arith))
          refl refl,
    )
