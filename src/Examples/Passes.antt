-- ===== src/Examples/Passes.antt =====
-- The theorems on whole passes, at the program of `Programs`.
use bf_rs.Prelude.{ℕ, suc, ◌+◌, ◌≡◌, ◌≤◌, ◌≢◌, refl, [], ◌∷◌, arith}
use bf_rs.Common.{Command, Instruction, ok}
use bf_rs.Common.Laws.{Yields}
use bf_rs.Machine.Laws.{IsValidMachine, Post}
use bf_rs.Tree.{AllInstr}
use bf_rs.Ast.Interpreter as Plain
use bf_rs.Rle.{IsRun, run}
use bf_rs.Ast.{IsPlain}
use bf_rs.State.Valid.{isize_max}
use bf_rs.Rle.Compiler as Encoder
use bf_rs.Rle.Interpreter as Runs
use bf_rs.Rle.Correct.{interpret-compile_runs}
use bf_rs.Rle.Runs.{compile-IsRun}
use bf_rs.Peephole.Compiler as Optimizer
use bf_rs.Peephole.Interpreter as Nested
use bf_rs.Peephole.Safety.{IsFineUpTo, interpret_fine-IsValidMachine}
use bf_rs.Peephole.Correct.{compile-IsFineUpTo, interpret-compile_peephole}
use bf_rs.Bytecode.Compiler as Flattener
use bf_rs.Bytecode.Interpreter as Flat
use bf_rs.Bytecode.{Program}
use bf_rs.Bytecode.Converse.{interpret-compile_rounds}
use bf_rs.Machine
use bf_rs.Machine.{out_of_fuel}
use bf_rs.State
use bf_rs.Bytecode.Correct.{interpret-compile_bytecode}
use bf_rs.Pipeline.{rle_compile, peephole_compile, bytecode_compile}
use bf_rs.Pipeline.Correct.{
  interpret-rle_compile, interpret-peephole_compile, interpret-bytecode_compile,
}
use bf_rs.Examples.Programs.{
  text, tree, runs, nested, machine, parsed, machine-IsValidMachine, tree-done, nested-done,
}

interpret-bytecode_compile_example :
    Yields
      (λ code.
        (n : ℕ) × ((k : ℕ)
          → Flat.interpret 256 (n + suc k) code machine ≡ Plain.interpret 256 tree machine))
      (bytecode_compile 10 tree)
interpret-bytecode_compile_example =
    interpret-bytecode_compile 256 10 text tree machine (omega arith) parsed (omega arith)
      (omega arith) machine-IsValidMachine tree-done

interpret-peephole_compile_example :
    Yields
      (λ q. Nested.interpret 256 q machine ≡ Plain.interpret 256 tree machine)
      (peephole_compile 10 tree)
interpret-peephole_compile_example =
    interpret-peephole_compile 256 10 text tree machine (omega arith) parsed (omega arith)
      (omega arith) machine-IsValidMachine

interpret-rle_compile_example :
    Runs.interpret 256 (rle_compile 10 tree) machine ≡ Plain.interpret 256 tree machine
interpret-rle_compile_example =
    interpret-rle_compile 256 10 text tree machine parsed (omega arith) (omega arith)
      machine-IsValidMachine

interpret-compile_runs_example :
    Runs.interpret 3 (Encoder.compile 10 tree) machine ≡ Plain.interpret 3 tree machine
interpret-compile_runs_example =
    interpret-compile_runs 3 10 tree machine machine-IsValidMachine
      (tt, ((tt, (tt, (tt, (tt, tt)))), (tt, (tt, tt)))) (omega arith) (omega arith)

one : (bound : ℕ) (c : Command) → 1 ≤ bound → IsPlain c → IsRun bound (run c 1)
one bound c h p = record { plain = p; positive = omega arith; bounded = h }

runs-IsRun : (bound : ℕ) → 1 ≤ bound → AllInstr (IsRun bound) runs
runs-IsRun bound h =
    let up₁ = one bound Command.up h tt in
    let right₁ = one bound Command.right h tt in
    let left₁ = one bound Command.left h tt in
    let down₁ = one bound Command.down h tt in
    let out₁ = one bound Command.out h tt in
    (up₁, ((right₁, (up₁, (left₁, (down₁, tt)))), (right₁, (out₁, tt))))

interpret-compile_peephole_example :
    Yields
      (λ q. Nested.interpret 256 q machine ≡ Runs.interpret 256 runs machine)
      (Optimizer.compile runs)
interpret-compile_peephole_example =
    interpret-compile_peephole 256 runs machine (omega arith) machine-IsValidMachine
      (runs-IsRun isize_max (omega arith))

compile-IsFineUpTo_example : Yields (AllInstr (IsFineUpTo 10)) (Optimizer.compile runs)
compile-IsFineUpTo_example = compile-IsFineUpTo 10 runs (omega arith) (runs-IsRun 10 (omega arith))

compile-IsRun_example : AllInstr (IsRun 10) (Encoder.compile 10 tree)
compile-IsRun_example =
    compile-IsRun 10 tree (omega arith) (tt, ((tt, (tt, (tt, (tt, tt)))), (tt, (tt, tt))))

interpret_fine-IsValidMachine_example : Post IsValidMachine (Nested.interpret 3 nested machine)
interpret_fine-IsValidMachine_example =
    interpret_fine-IsValidMachine 3 nested machine
      (
        omega arith,
        (
          (
            (omega arith, omega arith),
            (omega arith, ((omega arith, omega arith), (omega arith, tt))),
          ),
          ((omega arith, omega arith), (tt, tt)),
        ),
      )
      machine-IsValidMachine

interpret-compile_bytecode_example :
    Yields
      (λ code.
        (n : ℕ) × ((k : ℕ)
          → Flat.interpret 256 (n + suc k) code machine ≡ Nested.interpret 256 nested machine))
      (Flattener.compile 10 nested)
interpret-compile_bytecode_example =
    interpret-compile_bytecode 256 10 nested machine (omega arith)
      (tt, ((tt, (tt, (tt, (tt, tt)))), (tt, (tt, tt)))) nested-done

abbrev flat : Program
flat =
    Instruction.add 1
    ∷ Instruction.jump_zero 6
    ∷ Instruction.right 1
    ∷ Instruction.add 1
    ∷ Instruction.left 1
    ∷ Instruction.add 255
    ∷ Instruction.jump_not_zero 1
    ∷ Instruction.right 1
    ∷ Instruction.out
    ∷ []

nested-flat : Flattener.compile 10 nested ≡ ok flat
unfolding Flattener.compile Flattener.compile_into Flattener.usize_to_count
nested-flat = refl

flat-done : Flat.interpret 3 20 flat machine ≢ out_of_fuel
unfolding Flat.interpret State.write State.right State.left State.up State.load State.modify
    State.index Machine.write_byte
flat-done e = cc

interpret-compile_rounds_example :
    Nested.interpret 23 nested machine ≡ Flat.interpret 3 20 flat machine
interpret-compile_rounds_example =
    interpret-compile_rounds 3 20 10 nested flat machine (omega arith)
      (tt, ((tt, (tt, (tt, (tt, tt)))), (tt, (tt, tt)))) nested-flat flat-done
