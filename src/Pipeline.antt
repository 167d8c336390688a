-- ===== src/Pipeline.antt =====
-- src/rle/compiler.rs, src/peephole/compiler.rs and src/bytecode/compiler.rs: the traits
-- `RleCompilable`, `PeepholeCompilable` and `BytecodeCompilable`, which chain the passes from the
-- unoptimized tree on.
pub mod Correct
pub mod Native
pub mod Backends
pub mod Built
use bf_rs.Prelude.{ℕ, Bool, List, [], Option}
use bf_rs.Common
use bf_rs.Common.{Result, ok, err, panic}
use bf_rs.Ast
use bf_rs.Rle
use bf_rs.Rle.Compiler as Runs
use bf_rs.Peephole
use bf_rs.Peephole.Compiler as Optimizer
use bf_rs.Bytecode
use bf_rs.Bytecode.Compiler as Flattener
use bf_rs.Jit
use bf_rs.Traits.{Ended, ended}
use bf_rs.Llvm.Entry.{compile_and_run, size_of}
use bf_rs.Llvm.Ir.{Blocks}
use bf_rs.Llvm.Graph.{build}
use bf_rs.Jit.Compiler as Emitter

unfoldable pub rle_compile : ℕ → Ast.Program → Rle.Program
rle_compile count_max program = Runs.compile count_max program

unfoldable pub peephole_compile : ℕ → Ast.Program → Result Peephole.Program
unfolding rle_compile
peephole_compile count_max program = Optimizer.compile (rle_compile count_max program)

unfoldable pub bytecode_compile : ℕ → Ast.Program → Result Bytecode.Program
unfolding peephole_compile
bytecode_compile count_max program =
    Common.◌>>=◌ (peephole_compile count_max program) (Flattener.compile count_max)

-- `JitCompilable::jit_compile`, of src/jit/compiler.rs.
unfoldable pub jit_compile : ℕ → Ast.Program → Bool → Result Jit.Program
unfolding peephole_compile
jit_compile count_max program checked =
    Common.◌>>=◌ (peephole_compile count_max program) λ q. Emitter.compile q checked

-- `LlvmCompilable::llvm_run`, of src/llvm/compiler.rs, on an input. A panic comes before any of it
-- is read.
unfoldable pub llvm_run : ℕ → ℕ → Ast.Program → Option ℕ → List ℕ → Ended
unfolding peephole_compile compile_and_run
llvm_run fuel count_max program memory_size input = elim (peephole_compile count_max program) [
  | ok q ↦ compile_and_run fuel q memory_size input
  | err e ↦ ended panic (record { input = input; output = [] })
  | panic ↦ ended panic (record { input = input; output = [] })
]

-- The function that `llvm_run` builds.
unfoldable pub llvm_build : ℕ → Ast.Program → Option ℕ → Result Blocks
unfolding peephole_compile build
llvm_build count_max program memory_size =
    Common.◌>>=◌ (peephole_compile count_max program) (build (size_of memory_size))

-- `CraneliftCompilable::cranelift_compile`: the code is that of the optimized program.
unfoldable pub cranelift_compile : ℕ → Ast.Program → Result Peephole.Program
unfolding peephole_compile
cranelift_compile count_max program = peephole_compile count_max program
