-- ===== src/Pipeline/Built.antt =====
-- src/llvm/compiler.rs: a call of the function that is built for a parsed program.
use bf_rs.Prelude.{ℕ, ◌+◌, ◌≤◌, ◌≡◌, ◌≢◌, sym, ap, ◌∙◌, List, [], length, All, Option}
use bf_rs.Common.Laws.{Yields, Yields-bind, Yields-map}
use bf_rs.State.{State}
use bf_rs.State.Valid.{IsByte, isize_max}
use bf_rs.Machine.{Io, out_of_fuel}
use bf_rs.Ast
use bf_rs.Ast.Interpreter as Plain
use bf_rs.Ast.Parser.{parse_program}
use bf_rs.Ast.Parser
use bf_rs.Peephole.Interpreter as Nested
use bf_rs.Traits
use bf_rs.Traits.{Ended, seen, start}
use bf_rs.Traits.Start.{IsSize}
use bf_rs.Rts.{receive}
use bf_rs.Rts.Errors.{interpret-HasRunErrors}
use bf_rs.Rts.Correct.{receive-epilogue}
use bf_rs.Llvm.Ir.{Regs, run}
use bf_rs.Llvm.Entry.{size_of, prologue}
use bf_rs.Llvm.Run.{prologue-start, size_of-IsSize}
use bf_rs.Llvm.Graph.{build}
use bf_rs.Llvm.Graph.Run.{run-build}
use bf_rs.Pipeline.{peephole_compile, llvm_build}
use bf_rs.Pipeline.Backends.{optimized}

-- A program parsed from a text no longer than the largest slice and the largest `Count` has a
-- function built for it without panic. Take a memory that can be allocated and is not empty, an input
-- of bytes, and at least 256 rounds for each loop, within which the program ends. A run of the
-- function's basic blocks, whatever freshly allocated memory holds and whatever registers hold at
-- first, returns once it is given enough steps, and what is made of its number is the result, output
-- and rest of the input of the program itself.
pub llvm_build-ends :
    (undefined : ℕ → ℕ) (fuel count_max : ℕ) (text : List ℕ) (p : Ast.Program) (size : Option ℕ)
    (input : List ℕ) (regs : Regs) (s : State)
    → 256 ≤ fuel
    → parse_program text ≡ Parser.ok p
    → length text ≤ isize_max
    → length text ≤ count_max
    → IsSize size
    → All IsByte input
    → Plain.interpret fuel p (start size input) ≢ out_of_fuel
    → Yields
        (λ blocks.
          (n : ℕ) × ((k : ℕ)
            → receive (
                run undefined
                  (n + k)
                  blocks
                  (blocks 0)
                  regs
                  (record { state = s; io = record { input = input; output = [] } }))
              ≡ Traits.interpret (λ m. seen (Plain.interpret fuel p m)) size input))
        (llvm_build count_max p size)
unfolding llvm_build Traits.interpret
llvm_build-ends undefined fuel count_max text p size input regs s enough parsed small fits can bytes
      ends =
    let io : Io = record { input = input; output = [] } in
    let (positive, allocatable) = size_of-IsSize size can in
    Yields-bind _ (peephole_compile count_max p) (build (size_of size))
      (optimized fuel count_max text p size input enough parsed small fits can bytes)
      (λ q (fine, same).
        let whole = ap (Nested.interpret fuel q) (prologue-start size input) ∙ same in
        Yields-map
          (λ blocks (n, h). (
            n,
            λ k.
                ap receive (h k)
                ∙ receive-epilogue (Nested.interpret fuel q (prologue (size_of size) io))
                    (interpret-HasRunErrors fuel q (prologue (size_of size) io))
                ∙ ap seen whole,
          ))
          (build (size_of size) q)
          (run-build undefined fuel (size_of size) q (record { state = s; io = io }) regs fine
            positive allocatable bytes (λ e. ends (sym whole ∙ e))))
