-- ===== src/Examples/Native.antt =====
-- The theorems on native code and on the executable, at the program of `Programs`.
use bf_rs.Prelude.{ℕ, ◌≡◌, ◌≢◌, refl, List, [], ◌∷◌, Option, none, some, true, false, arith}
use bf_rs.Common.{unmatched_begin}
use bf_rs.Common.Laws.{Yields}
use bf_rs.Machine.{Machine, Outcome, out_of_fuel}
use bf_rs.Machine.Laws.{IsValidMachine, Post}
use bf_rs.Tree.{AllInstr}
use bf_rs.Ast.Interpreter as Plain
use bf_rs.Ast.Parser.Tokens.{balance, tokens}
use bf_rs.Peephole.Interpreter as Nested
use bf_rs.Peephole.Safety.{IsFine}
use bf_rs.Common.{Instruction}
use bf_rs.Tree.{nil, ◌⨾◌, instr}
use bf_rs.Peephole
use bf_rs.Peephole.Halts.{Ends, interpret-Ends}
use bf_rs.Jit.Code as Code
use bf_rs.Jit.Compiler as Emitter
use bf_rs.Jit.LoopBalance.{analyze_loop}
use bf_rs.Jit.Moves.Instructions.{At}
use bf_rs.Jit.Balance.{Moves}
use bf_rs.Jit.Balance.Sound.{analyze_loop-Moves}
use bf_rs.Jit.Correct.{interpret-compile_jit}
use bf_rs.Pipeline.{jit_compile}
use bf_rs.Pipeline.Native.{interpret-jit_compile}
use bf_rs.Bfi.{NewOptions, Options, jit, ast, error_exit, run_pass, main, program_text, join}
use bf_rs.Prelude.{suc, ◌+◌}
use bf_rs.Bfi.{bytecode}
use bf_rs.Traits.{start}
use bf_rs.Machine
use bf_rs.State
use bf_rs.Tree
use bf_rs.Machine.Inside.{IsInside}
use bf_rs.Jit.Unchecked.Correct.{interpret-compile_unchecked}
use bf_rs.Ast.Safety.{parsed-IsValidMachine}
use bf_rs.Bfi.Correct.{run_pass-bytecode, run_pass-ast, main-balance}
use bf_rs.Examples.Programs.{windows, text, tree, nested, machine, parsed, machine-IsValidMachine}

pub nested-IsFine : AllInstr IsFine nested
nested-IsFine = (
  omega arith,
  (
    ((omega arith, omega arith), (omega arith, ((omega arith, omega arith), (omega arith, tt)))),
    ((omega arith, omega arith), (tt, tt)),
  ),
)

interpret-compile_jit_example :
    Yields
      (λ code. Code.interpret 9 code machine ≡ Nested.interpret 9 nested machine)
      (Emitter.compile nested true)
interpret-compile_jit_example =
    interpret-compile_jit 9 nested machine nested-IsFine machine-IsValidMachine

interpret-jit_compile_example :
    Yields
      (λ code. Code.interpret 256 code machine ≡ Plain.interpret 256 tree machine)
      (jit_compile 10 tree true)
interpret-jit_compile_example =
    interpret-jit_compile 256 10 text tree machine (omega arith) parsed (omega arith) (omega arith)
      machine-IsValidMachine

analyze_loop-Moves_example :
    Yields
      (λ b. (m : Machine) → IsValidMachine m → Post (At (Moves b) m) (Nested.interpret 5 nested m))
      (analyze_loop nested)
analyze_loop-Moves_example = analyze_loop-Moves 5 nested nested-IsFine

abbrev pub options : Options
options = record {
  program_text = text;
  memory_size = some 4;
  compiler_pass = jit;
  unchecked = false;
}

run_pass-ast_example :
    run_pass 256 0 10 windows true jit tree options (7 ∷ [])
    ≡ run_pass 256 0 10 windows true ast tree options (7 ∷ [])
run_pass-ast_example =
    run_pass-ast 256 10 windows true text tree options (7 ∷ []) (omega arith) parsed (omega arith)
      (omega arith) (omega arith, omega arith) (omega arith, tt) 0 jit refl refl

abbrev command_line : NewOptions
command_line = record {
  files = none;
  expressions = some ((91 ∷ []) ∷ (43 ∷ []) ∷ []);
  memory_size = 4;
  unchecked = false;
  ast = false;
  rle = false;
  bytecode = false;
  peephole = false;
  jit = false;
  llvm = false;
  cranelift = false;
}

abbrev no_files : List ℕ → Option (List ℕ)
no_files name = none

the_text : program_text no_files command_line ≡ some (91 ∷ 43 ∷ [])
unfolding program_text join
the_text = refl

some_memory : command_line.memory_size ≢ 0
some_memory e = cc

unmatched : balance 0 (tokens (91 ∷ 43 ∷ [])) ≡ some unmatched_begin
unmatched = refl

main-balance_example :
    main 9 9 10 windows false no_files command_line []
    ≡ error_exit 2 (record { input = []; output = [] })
main-balance_example =
    main-balance 9 9 10 windows false no_files command_line (91 ∷ 43 ∷ []) [] unmatched_begin
      some_memory the_text unmatched

pub nested-IsInside : IsInside (Nested.interpret 9 nested machine)
unfolding Nested.interpret Nested.exec Tree.interpret Machine.while_nonzero Machine.write_byte
    State.left State.right State.up State.write State.load State.index State.modify
nested-IsInside = tt

interpret-compile_unchecked_example :
    Yields
      (λ code. Code.interpret 9 code machine ≡ Nested.interpret 9 nested machine)
      (Emitter.compile nested false)
interpret-compile_unchecked_example =
    interpret-compile_unchecked 9 nested machine nested-IsFine machine-IsValidMachine
      nested-IsInside

pub tree_options-done : Plain.interpret 256 tree (start (some 4) (7 ∷ [])) ≢ out_of_fuel
unfolding start Plain.interpret Tree.interpret Plain.interpret_command Machine.while_nonzero
    Machine.write_byte State.left State.right State.up State.down State.write State.load State.index
    State.modify
tree_options-done e = cc

run_pass-bytecode_example :
    (n : ℕ) × ((k : ℕ)
      → run_pass 256 (n + suc k) 10 windows true bytecode tree options (7 ∷ [])
        ≡ run_pass 256 0 10 windows true ast tree options (7 ∷ []))
run_pass-bytecode_example =
    run_pass-bytecode 256 10 windows true text tree options (7 ∷ []) (omega arith) parsed
      (omega arith) (omega arith) (omega arith, omega arith) (omega arith, tt) tree_options-done

parsed-IsValidMachine_example : Post IsValidMachine (Plain.interpret 5 tree machine)
parsed-IsValidMachine_example =
    parsed-IsValidMachine 5 text tree machine parsed machine-IsValidMachine

-- What is left of `,>++[>]<.` where a search has taken the loop's place.
abbrev search : Peephole.Program
search =
    instr Instruction.in_
    ⨾ instr (Instruction.right 1)
    ⨾ instr (Instruction.add 2)
    ⨾ instr (Instruction.find_zero_right 1)
    ⨾ instr (Instruction.left 1)
    ⨾ instr Instruction.out
    ⨾ nil

search-IsFine : AllInstr IsFine search
search-IsFine = (
  tt,
  (
    (omega arith, omega arith),
    (omega arith, ((omega arith, omega arith), ((omega arith, omega arith), (tt, tt)))),
  ),
)

interpret-Ends_example : Ends (Nested.interpret 4 search machine)
interpret-Ends_example =
    interpret-Ends 4 search machine (tt, (tt, (tt, (tt, (tt, (tt, tt)))))) search-IsFine
      machine-IsValidMachine (omega arith)
