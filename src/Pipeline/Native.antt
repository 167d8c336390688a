-- ===== src/Pipeline/Native.antt =====
-- src/jit/compiler.rs: native code made from a parsed program.
use bf_rs.Prelude.{ℕ, ◌≤◌, ◌≡◌, ◌∙◌, List, length, true, arith}
use bf_rs.Common.Laws.{Yields, Yields-bind, Yields-map}
use bf_rs.State.Valid.{isize_max}
use bf_rs.Machine.{Machine}
use bf_rs.Machine.Laws.{IsValidMachine}
use bf_rs.Tree.{AllInstr}
use bf_rs.Ast
use bf_rs.Ast.Interpreter as Plain
use bf_rs.Ast.Parser.{ok, parse_program}
use bf_rs.Rle.Compiler as Encoder
use bf_rs.Rle.Runs.{compile-IsRun_size}
use bf_rs.Peephole
use bf_rs.Peephole.Compiler as Optimizer
use bf_rs.Peephole.Interpreter as Nested
use bf_rs.Peephole.Safety.{IsFine}
use bf_rs.Peephole.Correct.{compile-IsFine}
use bf_rs.Jit.Code as Code
use bf_rs.Jit.Compiler as Emitter
use bf_rs.Jit.Correct.{interpret-compile_jit}
use bf_rs.Pipeline.{rle_compile, peephole_compile, jit_compile}
use bf_rs.Pipeline.Correct.{parse_program-IsParsed, Yields-both, interpret-peephole_compile}

-- A program parsed from a text no longer than the largest slice and the largest `Count` is
-- compiled to checked native code without panic, and from a valid machine, with at least 256
-- rounds for each loop, the code has its outcome.
pub interpret-jit_compile :
    (fuel count_max : ℕ) (text : List ℕ) (p : Ast.Program) (m : Machine)
    → 256 ≤ fuel
    → parse_program text ≡ ok p
    → length text ≤ isize_max
    → length text ≤ count_max
    → IsValidMachine m
    → Yields
        (λ code. Code.interpret fuel code m ≡ Plain.interpret fuel p m)
        (jit_compile count_max p true)
unfolding jit_compile peephole_compile rle_compile
interpret-jit_compile fuel count_max text p m f e h k v =
    let i = parse_program-IsParsed text p e in
    let runs =
      compile-IsRun_size count_max isize_max p (omega arith) (omega (arith, i.small)) i.plain in
    let r = Encoder.compile count_max p in
    let Agrees = λ (q : Peephole.Program). Nested.interpret fuel q m ≡ Plain.interpret fuel p m in
    Yields-bind _ (Optimizer.compile r) _
      (Yields-both (AllInstr IsFine) Agrees (Optimizer.compile r) (compile-IsFine r runs)
        (interpret-peephole_compile fuel count_max text p m f e h k v))
      (λ q g.
        Yields-map (λ code e'. e' ∙ g.1) (Emitter.compile q true)
          (interpret-compile_jit fuel q m g.0 v))
