-- ===== src/Examples/Backends.antt =====
-- The theorems on the back ends of LLVM and Cranelift, and on result codes, at the program of
-- `Programs`.
use bf_rs.Prelude.{ℕ, ◌≡◌, refl, [], ◌∷◌, some, true, length, arith}
use bf_rs.Common.{pointer_overflow, find_zero_right}
use bf_rs.Common.Laws.{Yields}
use bf_rs.State
use bf_rs.Machine
use bf_rs.Machine.{Machine, failed, panicked}
use bf_rs.Machine.Laws.{IsValidMachine}
use bf_rs.Machine.Inside.{IsInside}
use bf_rs.Tree
use bf_rs.Tree.{AllInstr}
use bf_rs.Ast.Interpreter as Plain
use bf_rs.Peephole.Interpreter as Nested
use bf_rs.Cranelift
use bf_rs.Cranelift.Correct.{IsAddressable, interpret-cranelift}
use bf_rs.Cranelift.Silent.{exec-unchecked}
use bf_rs.Llvm.Code as Emitted
use bf_rs.Llvm.Compiler.{compile_block}
use bf_rs.Llvm.Correct.{interpret-compile_block}
use bf_rs.Llvm.Entry.{compile_and_run}
use bf_rs.Llvm.Run.{compile_and_run-interpret}
use bf_rs.Jit.Code as Native
use bf_rs.Traits
use bf_rs.Traits.{seen, start}
use bf_rs.Rts.{interpret_state}
use bf_rs.Pipeline.{jit_compile, llvm_run}
use bf_rs.Pipeline.Backends.{jit-ends, llvm-ends}
use bf_rs.Bfi.{ast, cranelift, run_pass}
use bf_rs.Bfi.Correct.{run_pass-cranelift}
use bf_rs.Examples.Native.{nested-IsFine, nested-IsInside, options}
use bf_rs.Examples.Programs.{windows, text, tree, nested, machine, parsed, machine-IsValidMachine}

interpret-compile_block_example :
    Yields
      (λ code. Emitted.interpret 9 code machine ≡ Nested.interpret 9 nested machine)
      (compile_block nested)
interpret-compile_block_example =
    interpret-compile_block 9 nested machine nested-IsFine machine-IsValidMachine

compile_and_run-interpret_example :
    compile_and_run 9 nested (some 4) (7 ∷ [])
    ≡ Traits.interpret (λ m. seen (Nested.interpret 9 nested m)) (some 4) (7 ∷ [])
compile_and_run-interpret_example =
    compile_and_run-interpret 9 nested (some 4) (7 ∷ []) nested-IsFine (omega arith, omega arith)
      (omega arith, tt)

jit-ends_example :
    Yields
      (λ code.
        Traits.interpret (interpret_state (Native.interpret 256 code)) (some 4) (7 ∷ [])
        ≡ Traits.interpret (λ m. seen (Plain.interpret 256 tree m)) (some 4) (7 ∷ []))
      (jit_compile 10 tree true)
jit-ends_example =
    jit-ends 256 10 text tree (some 4) (7 ∷ []) (omega arith) parsed (omega arith) (omega arith)
      (omega arith, omega arith) (omega arith, tt)

llvm-ends_example :
    llvm_run 256 10 tree (some 4) (7 ∷ [])
    ≡ Traits.interpret (λ m. seen (Plain.interpret 256 tree m)) (some 4) (7 ∷ [])
llvm-ends_example =
    llvm-ends 256 10 text tree (some 4) (7 ∷ []) (omega arith) parsed (omega arith) (omega arith)
      (omega arith, omega arith) (omega arith, tt)

nested-IsAddressable : AllInstr (IsAddressable windows.mem_start) nested
nested-IsAddressable = (
  (nested-IsFine.0, tt),
  (
    (
      (nested-IsFine.1.0.0, tt),
      (
        (nested-IsFine.1.0.1.0, tt),
        ((nested-IsFine.1.0.1.1.0, omega arith), ((nested-IsFine.1.0.1.1.1.0, tt), tt)),
      ),
    ),
    ((nested-IsFine.1.1.0, tt), ((tt, tt), tt)),
  ),
)

interpret-cranelift_example :
    Cranelift.interpret windows 9 nested machine ≡ Nested.interpret 9 nested machine
interpret-cranelift_example =
    interpret-cranelift windows 9 nested machine (omega arith) refl nested-IsAddressable
      machine-IsValidMachine nested-IsInside

tree_options-IsInside : IsInside (Plain.interpret 256 tree (start (some 4) (7 ∷ [])))
unfolding start Plain.interpret Tree.interpret Plain.interpret_command Machine.while_nonzero
    Machine.write_byte State.left State.right State.up State.down State.write State.load State.index
    State.modify
tree_options-IsInside = tt

options-room : ◌≡◌ {A = ℕ} (length (start (some 4) (7 ∷ [])).state.memory) 4
unfolding start State.with_capacity
options-room = refl

run_pass-cranelift_example :
    run_pass 256 0 10 windows true cranelift tree options (7 ∷ [])
    ≡ run_pass 256 0 10 windows true ast tree options (7 ∷ [])
run_pass-cranelift_example =
    run_pass-cranelift 256 10 windows true text tree options (7 ∷ []) (omega arith) parsed
      (omega arith) (omega arith) (omega arith, omega arith) (omega arith, tt) 0 refl (omega arith)
      (omega arith) (omega (arith, options-room)) tree_options-IsInside

-- A search for a zero in a memory that has none.
abbrev full : Machine
full = record {
  state = record { memory = 1 ∷ 1 ∷ []; pointer = 0 };
  io = record { input = []; output = [] };
}

full-fails : Nested.exec 9 (find_zero_right 1) full ≡ failed pointer_overflow full.io
unfolding Nested.exec Machine.while_nonzero State.right State.load State.index
full-fails = refl

full-IsValidMachine : IsValidMachine full
full-IsValidMachine = record {
  valid = record {
    inside = omega arith;
    allocated = omega arith;
    bytes = (omega arith, (omega arith, tt));
  };
  input_bytes = tt;
}

exec-unchecked_example : Cranelift.exec windows 10 (find_zero_right 1) full ≡ panicked full.io
exec-unchecked_example =
    exec-unchecked windows 9 (find_zero_right 1) full pointer_overflow full.io tt
      (omega arith, omega arith) full-IsValidMachine full-fails
