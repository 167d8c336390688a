-- ===== src/Llvm/Run.antt =====
-- src/llvm/compiler.rs: `compile_and_run`, and a run of the interpreter of src/peephole.
use bf_rs.Prelude.{ℕ, ◌<◌, ◌≤◌, arith, ◌≡◌, refl, ap, ◌∙◌, List, [], Option, none, some, All}
use bf_rs.Common.{Result, ok, err, panic}
use bf_rs.Common.Laws.{Yields}
use bf_rs.State
use bf_rs.State.Valid.{IsByte, isize_max}
use bf_rs.Tree.{AllInstr}
use bf_rs.Traits
use bf_rs.Traits.{Ended, seen, start}
use bf_rs.Traits.Start.{IsSize, start-IsValidMachine}
use bf_rs.Rts.{epilogue, receive}
use bf_rs.Rts.Errors.{interpret-HasRunErrors}
use bf_rs.Rts.Correct.{receive-epilogue}
use bf_rs.Peephole
use bf_rs.Peephole.Interpreter as Nested
use bf_rs.Peephole.Safety.{IsFine}
use bf_rs.Llvm
use bf_rs.Llvm.Code as Emitted
use bf_rs.Llvm.Compiler.{compile_block}
use bf_rs.Llvm.Correct.{interpret-compile_block}
use bf_rs.Llvm.Entry.{size_of, prologue, run, compile_and_run}

pub size_of-IsSize :
    (size : Option ℕ) → IsSize size → (0 < size_of size) × (size_of size ≤ isize_max)
size_of-IsSize none h = (omega arith, omega arith)
size_of-IsSize (some n) h = h

pub prologue-start :
    (size : Option ℕ) (input : List ℕ)
    → prologue (size_of size) (record { input = input; output = [] }) ≡ start size input
unfolding prologue start State.with_capacity State.new
prologue-start (some size) input = refl
prologue-start none input = refl

run_of_Yields :
    (fuel : ℕ) (size : Option ℕ) (input : List ℕ) (p : Peephole.Program) (r : Result Llvm.Program)
    → Yields
        (λ code.
          Emitted.interpret fuel code (start size input)
          ≡ Nested.interpret fuel p (start size input))
        r
    → run fuel size (record { input = input; output = [] }) r
      ≡ Traits.interpret (λ m. seen (Nested.interpret fuel p m)) size input
unfolding run Traits.interpret
run_of_Yields fuel size input p (ok code) h =
    ap (λ m. receive (epilogue (Emitted.interpret fuel code m))) (prologue-start size input)
    ∙ ap (λ o. receive (epilogue o)) h
    ∙ receive-epilogue (Nested.interpret fuel p (start size input))
        (interpret-HasRunErrors fuel p (start size input))
run_of_Yields fuel size input p (err e) h = absurd h
run_of_Yields fuel size input p panic h = absurd h

-- For a program without jumps, whose amounts are bytes and whose offsets are positive and no more
-- than the largest slice, a memory that can be allocated and is not empty, and an input of bytes,
-- `compile_and_run` ends as the interpreter of the program does: with the same result, output and
-- rest of the input.
pub compile_and_run-interpret :
    (fuel : ℕ) (p : Peephole.Program) (size : Option ℕ) (input : List ℕ)
    → AllInstr IsFine p
    → IsSize size
    → All IsByte input
    → compile_and_run fuel p size input
      ≡ Traits.interpret (λ m. seen (Nested.interpret fuel p m)) size input
unfolding compile_and_run
compile_and_run-interpret fuel p size input f s b =
    run_of_Yields fuel size input p (compile_block p)
      (interpret-compile_block fuel p (start size input) f (start-IsValidMachine size input s b))
