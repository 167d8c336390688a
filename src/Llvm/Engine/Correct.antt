-- ===== src/Llvm/Engine/Correct.antt =====
-- src/llvm/compiler.rs: `compile_and_run` with any engine, its failures included.
use bf_rs.Prelude.{
  ℕ, ◌+◌, ◌≡◌, ◌≢◌, refl, sym, ap, ◌∙◌, Bool, true, false, ◌==◌, ◌&&◌, not, if◌then◌else◌, List, [],
  Option, none, some, All,
}
use bf_rs.Common.{ok, panic}
use bf_rs.Common.Laws.{Yields, Yields-ok}
use bf_rs.State.{State}
use bf_rs.State.Valid.{IsByte}
use bf_rs.Machine.{Io, out_of_fuel}
use bf_rs.Tree.{AllInstr}
use bf_rs.Peephole
use bf_rs.Peephole.Interpreter as Nested
use bf_rs.Peephole.Safety.{IsFine}
use bf_rs.Traits.{ended, seen, start}
use bf_rs.Traits.Start.{IsSize}
use bf_rs.Rts.{Returned, epilogue, receive}
use bf_rs.Rts.Errors.{interpret-HasRunErrors}
use bf_rs.Rts.Correct.{receive-epilogue}
use bf_rs.Llvm.Ir.{Blocks, Regs, run}
use bf_rs.Llvm.Entry.{size_of, prologue}
use bf_rs.Llvm.Run.{prologue-start, size_of-IsSize}
use bf_rs.Llvm.Graph.{build}
use bf_rs.Llvm.Graph.Run.{run-build}
use bf_rs.Llvm.Engine.{
  Engine, success, failure, no_asm_printer, no_target, not_compiled, with_function, unwrap,
  compile_and_run, is_ready,
}

-- The machine code that is made of the blocks does on an input what they do, where they return.
abbrev pub IsCompiled : (ℕ → ℕ) → Regs → State → Engine → Io → Blocks → Type 0
IsCompiled undefined regs s engine io blocks =
    (r : Returned) (n : ℕ)
    → ((k : ℕ) → run undefined (n + k) blocks (blocks 0) regs (record { state = s; io = io }) ≡ r)
    → engine.function blocks io ≡ r

-- The three attempts, one after the other.
unwrap-attempts :
    (io : Io) (no_printer no_target_ : Bool) (message : Option (List ℕ)) (r : Returned)
    → unwrap io (
        if no_printer
        then failure no_asm_printer
        else if no_target_
        then failure no_target
        else elim message [ some text ↦ failure (not_compiled text) | none ↦ success r ])
      ≡ (if not no_printer && not no_target_ && (elim message [ some text ↦ false | none ↦ true ])
          then receive r
          else ended panic io)
unwrap-attempts io true no_target_ message r = refl
unwrap-attempts io false true message r = refl
unwrap-attempts io false false (some text) r = refl
unwrap-attempts io false false none r = refl

unwrap-with_function :
    (engine : Engine) (blocks : Blocks) (io : Io)
    → unwrap io (with_function engine blocks λ f. f io)
      ≡ (if is_ready engine blocks then receive (engine.function blocks io) else ended panic io)
unfolding with_function
unwrap-with_function engine blocks io =
    unwrap-attempts io (engine.initialize_native_asm_printer == 1)
      (engine.initialize_native_target == 1) (engine.create_compiler blocks)
      (engine.function blocks io)

-- Take a program without jumps, whose amounts are bytes and whose offsets are positive and no more
-- than the largest slice, and that ends within its fuel on a memory that can be allocated and is not
-- empty, and an input of bytes. Its blocks are built without panic. If the machine code that the engine
-- makes of them does on this input what they do, `compile_and_run` ends as the interpreter of the
-- program does where the engine can be set up and compiles the blocks. Where it cannot, it ends with a
-- panic, before any input is read.
pub compile_and_run-blocks :
    (undefined : ℕ → ℕ) (fuel : ℕ) (regs : Regs) (s : State) (engine : Engine)
    (p : Peephole.Program) (size : Option ℕ) (input : List ℕ)
    → AllInstr IsFine p
    → IsSize size
    → All IsByte input
    → Nested.interpret fuel p (start size input) ≢ out_of_fuel
    → ((blocks : Blocks)
        → build (size_of size) p ≡ ok blocks
        → IsCompiled undefined regs s engine (record { input = input; output = [] }) blocks)
    → Yields
        (λ blocks. compile_and_run engine p size input ≡ (
          if is_ready engine blocks
          then seen (Nested.interpret fuel p (start size input))
          else ended panic (record { input = input; output = [] })))
        (build (size_of size) p)
unfolding compile_and_run
compile_and_run-blocks undefined fuel regs s engine p size input fine can bytes ends compiles =
    let io : Io = record { input = input; output = [] } in
    let m = prologue (size_of size) io in
    let (positive, allocatable) = size_of-IsSize size can in
    let same = ap (Nested.interpret fuel p) (prologue-start size input) in
    let (blocks, e, (n, h)) = Yields-ok _ (build (size_of size) p) (
      run-build undefined fuel (size_of size) p (record { state = s; io = io }) regs fine positive
        allocatable bytes (λ x. ends (sym same ∙ x))) in
    let called =
      ap receive (compiles blocks e (epilogue (Nested.interpret fuel p m)) n h)
      ∙ receive-epilogue (Nested.interpret fuel p m) (interpret-HasRunErrors fuel p m)
      ∙ ap seen same in
    rw e (
      unwrap-with_function engine blocks io
      ∙ ap (λ r. if is_ready engine blocks then r else ended panic io) called)
