-- ===== src/Llvm/Engine.antt =====
-- src/llvm/wrapper.rs and src/llvm/compiler.rs: the call of the function that was built. What the
-- engine of LLVM returns is a parameter.
pub mod Correct
use bf_rs.Prelude.{
  ℕ, Bool, true, false, not, ◌==◌, ◌&&◌, if◌then◌else◌, List, [], Option, none, some,
}
use bf_rs.Common.{Result, ok, err, panic}
use bf_rs.Machine.{Io}
use bf_rs.Traits.{Ended, ended}
use bf_rs.Rts.{Returned, receive}
use bf_rs.Peephole
use bf_rs.Llvm.Ir.{Blocks}
use bf_rs.Llvm.Entry.{size_of}
use bf_rs.Llvm.Graph.{build}

-- What the calls of the engine return: two statuses, an error message where the module is not
-- compiled, and the compiled function.
pub record Engine : Type 0 where
  pub initialize_native_asm_printer : ℕ
  pub initialize_native_target : ℕ
  pub create_compiler : Blocks → Option (List ℕ)
  pub function : Blocks → Io → Returned

-- The errors of `with_function`.
pub data Failure : Type 0 where
  no_asm_printer no_target : Failure
  not_compiled : List ℕ → Failure

pub data Attempt {ℓ} (A : Type ℓ) : Type ℓ where
  success : A → Attempt A
  failure : Failure → Attempt A

unfoldable pub with_function {ℓ} :
    {A : Type ℓ} → Engine → Blocks → ((Io → Returned) → A) → Attempt A
with_function engine blocks with_ =
    if engine.initialize_native_asm_printer == 1
    then failure no_asm_printer
    else if engine.initialize_native_target == 1
    then failure no_target
    else elim (engine.create_compiler blocks) [
      | some message ↦ failure (not_compiled message)
      | none ↦ success (with_ (engine.function blocks))
    ]

-- `unwrap`, and the `match` on the result.
abbrev pub unwrap : Io → Attempt Returned → Ended
unwrap io (success r) = receive r
unwrap io (failure e) = ended panic io

abbrev pub run_built : Engine → Io → Result Blocks → Ended
run_built engine io (ok blocks) = unwrap io (with_function engine blocks λ f. f io)
run_built engine io (err e) = ended panic io
run_built engine io panic = ended panic io

unfoldable pub compile_and_run : Engine → Peephole.Program → Option ℕ → List ℕ → Ended
unfolding with_function build receive
compile_and_run engine program memory_size input =
    run_built engine (record { input = input; output = [] }) (build (size_of memory_size) program)

-- Whether the engine gets as far as the call.
abbrev pub is_ready : Engine → Blocks → Bool
is_ready engine blocks =
    not (engine.initialize_native_asm_printer == 1)
    && not (engine.initialize_native_target == 1)
    && elim (engine.create_compiler blocks) [ some message ↦ false | none ↦ true ]
