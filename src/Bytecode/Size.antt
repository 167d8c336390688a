-- ===== src/Bytecode/Size.antt =====
-- src/peephole/compiler.rs: how large the optimized program is, for the addresses of its code.
use bf_rs.Prelude.{ℕ, zero, suc, ◌+◌, ◌%◌, ◌-◌, ◌≡◌, ◌≤◌, ◌∙◌, Option, none, some, arith}
use bf_rs.Common.{Command, Instruction, right, left, add, in_, out}
use bf_rs.Common.Laws.{Yields, Yields-bind, Yields-map}
use bf_rs.State.{byte_mod}
use bf_rs.Tree.{nil, ◌⨾◌, ◌⧺◌, instr, loop, push, AllInstr, AllStatement}
use bf_rs.Rle
use bf_rs.Rle.{IsRun}
use bf_rs.Rle.Weight.{weight, weight_statement}
use bf_rs.Peephole.{Program, Statement}
use bf_rs.Peephole.Compiler.{
  peephole, loop_or, push_times, compile_run, compile_into, compile_statement, compile,
}
use bf_rs.Bytecode.Layout.{width, width_statement}

width-push : (p : Program) (s : Statement) → width (push p s) ≡ width p + width_statement s
unfolding push ◌⧺◌
width-push nil s = omega arith
width-push (s' ⨾ p) s = omega (arith, width-push p s)

width-push_times :
    (n : ℕ) (i : Instruction) (code : Program) → width (push_times n i code) ≡ width code + n
unfolding push_times
width-push_times zero i code = omega arith
width-push_times (suc n) i code =
    width-push_times n i (push code (instr i)) ∙ omega (arith, width-push code (instr i))

width-loop_or : (q : Program) (o : Option Instruction) → width_statement (loop_or q o) ≤ 2 + width q
width-loop_or q none = omega arith
width-loop_or q (some i) = omega arith

-- The code grows by no more than `n`.
abbrev Grows : Program → ℕ → Program → Type 0
Grows code n q = width q ≤ width code + n

module _ (bound : ℕ) where
  compile_run-Grows :
      (c : Command) (n : ℕ) (code : Program)
      → IsRun bound (Rle.run c n)
      → Yields (Grows code n) (compile_run c n code)
  unfolding compile_run
  compile_run-Grows Command.right n code r =
      omega (arith, r.positive, width-push code (instr (right n)))
  compile_run-Grows Command.left n code r =
      omega (arith, r.positive, width-push code (instr (left n)))
  compile_run-Grows Command.up n code r =
      omega (arith, r.positive, width-push code (instr (add (n % 256 % byte_mod))))
  compile_run-Grows Command.down n code r =
      omega (arith, r.positive, width-push code (instr (add ((256 - n % 256) % byte_mod))))
  compile_run-Grows Command.in_ n code r = omega (arith, width-push_times n in_ code)
  compile_run-Grows Command.out n code r = omega (arith, width-push_times n out code)
  compile_run-Grows Command.begin n code r = absurd r.plain
  compile_run-Grows Command.end n code r = absurd r.plain

  mutual
    unfolding compile_into

    compile_into-Grows :
        (p : Rle.Program) (code : Program)
        → AllInstr (IsRun bound) p
        → Yields (Grows code (weight p)) (compile_into p code)
    compile_into-Grows nil code a = omega arith
    compile_into-Grows (s ⨾ p) code a =
        Yields-bind _ (compile_statement s code) (compile_into p)
          (compile_statement-Grows s code a.0)
          (λ code' h.
            Yields-map (λ q g. omega arith) (compile_into p code') (compile_into-Grows p code' a.1))

    compile_statement-Grows :
        (s : Rle.Statement) (code : Program)
        → AllStatement (IsRun bound) s
        → Yields (Grows code (weight_statement s)) (compile_statement s code)
    compile_statement-Grows (instr r) code a = compile_run-Grows r.command r.count code a
    compile_statement-Grows (loop body) code a =
        Yields-bind _ (compile_into body nil) _ (compile_into-Grows body nil a) (λ q h.
          omega (arith, width-push code (loop_or q (peephole q)), width-loop_or q (peephole q)))

-- The code of an optimized program has no more instructions than the runs have commands.
pub compile-width :
    (bound : ℕ) (p : Rle.Program)
    → AllInstr (IsRun bound) p
    → Yields (λ q. width q ≤ weight p) (compile p)
unfolding compile
compile-width bound p a =
    Yields-map (λ q h. omega arith) (compile_into p nil) (compile_into-Grows bound p nil a)
