-- ===== src/Examples/Graph.antt =====
-- The theorems on the basic blocks that are emitted for LLVM, at the program of `Programs`.
use bf_rs.Prelude.{
  subst, refl, none, sym, ap, ◌∙◌, if◌then◌else◌, ℕ, ◌+◌, ◌≡◌, ◌≢◌, [], ◌∷◌, some, arith,
}
use bf_rs.Common.{Result, ok, panic}
use bf_rs.Common.Laws.{Yields}
use bf_rs.State
use bf_rs.Machine.{Machine, out_of_fuel}
use bf_rs.Machine
use bf_rs.Tree
use bf_rs.Ast.Interpreter as Plain
use bf_rs.Peephole.Interpreter as Nested
use bf_rs.Traits
use bf_rs.Traits.{seen, start, ended}
use bf_rs.Rts.{Returned, returned, crashed, epilogue, receive}
use bf_rs.Llvm.Ir
use bf_rs.Llvm.Ir.{Blocks, Regs, run}
use bf_rs.Llvm.Entry.{prologue}
use bf_rs.Llvm.Graph.{build}
use bf_rs.Llvm.Graph.Run.{run-build}
use bf_rs.Llvm.Engine.{Engine, compile_and_run, is_ready}
use bf_rs.Llvm.Engine.Correct.{IsCompiled, compile_and_run-blocks}
use bf_rs.Pipeline.{llvm_build}
use bf_rs.Pipeline.Built.{llvm_build-ends}
use bf_rs.Examples.Native.{nested-IsFine, tree_options-done}
use bf_rs.Examples.Programs.{text, tree, nested, machine, parsed}

-- Freshly allocated memory, and registers, that are not 0.
abbrev dirty : ℕ → ℕ
dirty n = 170

abbrev registers : Regs
registers r = Ir.nothing

fresh-done : Nested.interpret 256 nested (prologue 4 machine.io) ≢ out_of_fuel
unfolding prologue Nested.interpret Nested.exec Tree.interpret Machine.while_nonzero
    Machine.write_byte State.left State.right State.up State.write State.load State.index
    State.modify
fresh-done e = cc

first-done : Nested.interpret 256 nested (start (some 4) []) ≢ out_of_fuel
unfolding start State.with_capacity Nested.interpret Nested.exec Tree.interpret
    Machine.while_nonzero Machine.write_byte State.left State.right State.up State.write State.load
    State.index State.modify
first-done e = cc

run-build_example :
    Yields
      (λ blocks.
        (n : ℕ) × ((k : ℕ)
          → run dirty (n + k) blocks (blocks 0) registers machine
            ≡ epilogue (Nested.interpret 256 nested (prologue 4 machine.io))))
      (build 4 nested)
run-build_example =
    run-build dirty 256 4 nested machine registers nested-IsFine (omega arith) (omega arith) tt
      fresh-done

llvm_build-ends_example :
    Yields
      (λ blocks.
        (n : ℕ) × ((k : ℕ)
          → receive (
              run dirty
                (n + k)
                blocks
                (blocks 0)
                registers
                (record { state = machine.state; io = record { input = 7 ∷ []; output = [] } }))
            ≡ Traits.interpret (λ m. seen (Plain.interpret 256 tree m)) (some 4) (7 ∷ [])))
      (llvm_build 10 tree (some 4))
llvm_build-ends_example =
    llvm_build-ends dirty 256 10 text tree (some 4) (7 ∷ []) registers machine.state (omega arith)
      parsed (omega arith) (omega arith) (omega arith, omega arith) (omega arith, tt)
      tree_options-done

abbrev NestedReturns : Blocks → Type 0
NestedReturns blocks =
    (n : ℕ) × ((k : ℕ)
      → run dirty (n + k) blocks (blocks 0) registers machine
        ≡ epilogue (Nested.interpret 256 nested (prologue 4 machine.io)))

-- An engine that is set up, and whose function returns what the program ends with.
abbrev engine : Engine
engine = record {
  initialize_native_asm_printer = 0;
  initialize_native_target = 0;
  create_compiler = λ blocks. none;
  function = λ blocks io. epilogue (Nested.interpret 256 nested (prologue 4 io));
}

engine-IsCompiled :
    (blocks : Blocks)
    → build 4 nested ≡ ok blocks
    → IsCompiled dirty registers machine.state engine machine.io blocks
engine-IsCompiled blocks e r n' h' =
    let (n, h) = subst (Yields NestedReturns) e (
      run-build dirty 256 4 nested machine registers nested-IsFine (omega arith) (omega arith) tt
        fresh-done) in
    let swap : n + n' ≡ n' + n = omega arith in
    sym (h n') ∙ ap (λ j. run dirty j blocks (blocks 0) registers machine) swap ∙ h' n

compile_and_run-blocks_example :
    Yields
      (λ blocks. compile_and_run engine nested (some 4) [] ≡ (
        if is_ready engine blocks
        then seen (Nested.interpret 256 nested (start (some 4) []))
        else ended panic machine.io))
      (build 4 nested)
compile_and_run-blocks_example =
    compile_and_run-blocks dirty 256 registers machine.state engine nested (some 4) [] nested-IsFine
      (omega arith, omega arith) tt first-done engine-IsCompiled

-- The blocks of the program, run.
abbrev run_blocks : Result Blocks → ℕ → Machine → Returned
run_blocks (ok blocks) n m = run dirty n blocks (blocks 0) registers m
run_blocks _ n m = crashed m.io

nested_blocks-output :
    run_blocks (build 4 nested) 90 machine ≡ returned 0 (record { input = []; output = 1 ∷ [] })
unfolding build run
nested_blocks-output = refl
