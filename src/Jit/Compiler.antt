-- ===== src/Jit/Compiler.antt =====
-- src/jit/compiler.rs: which code is emitted. The compiler's state is its analyzer; the labels of a
-- loop are its place in the tree.
use bf_rs.Prelude.{Bool, true, false, ◌&&◌, not}
use bf_rs.Common.{Instruction, Result, ok, panic, ◌>>=◌}
use bf_rs.Tree.{nil, ◌⨾◌, instr, loop}
use bf_rs.Peephole
use bf_rs.Jit.{Op, Statement, Program}
use bf_rs.Jit.Analysis.{BoundsAnalysis, abstract_interpreter, no_analysis}

module _ {A : Type 0} (analysis : BoundsAnalysis A) (checked : Bool) where
  -- `if self.checked && !proved`.
  abbrev check_unless : Bool → Bool
  check_unless proved = checked && not proved

  unfoldable pub emit : Instruction → A → Result (Op × A)
  emit (Instruction.right count) a =
      let (proved, a') = analysis.move_right count a in
      ok (Op.right count (check_unless proved), a')
  emit (Instruction.left count) a =
      let (proved, a') = analysis.move_left count a in ok (Op.left count (check_unless proved), a')
  emit (Instruction.add count) a = ok (Op.add count, a)
  emit Instruction.in_ a = ok (Op.in_, a)
  emit Instruction.out a = ok (Op.out, a)
  emit Instruction.set_zero a = ok (Op.set_zero, a)
  emit (Instruction.find_zero_right skip) a =
      ok (Op.find_zero_right skip (check_unless false), analysis.reset_right a)
  emit (Instruction.find_zero_left skip) a =
      ok (Op.find_zero_left skip (check_unless false), analysis.reset_left a)
  emit (Instruction.offset_add_right offset) a =
      ok (Op.offset_add_right offset (check_unless (analysis.check_right offset a)), a)
  emit (Instruction.offset_add_left offset) a =
      ok (Op.offset_add_left offset (check_unless (analysis.check_left offset a)), a)
  emit (Instruction.jump_zero _) a = panic
  emit (Instruction.jump_not_zero _) a = panic

  unfoldable mutual
    unfolding emit

    pub compile_program : Peephole.Program → A → Result (Program × A)
    compile_program nil a = ok (nil, a)
    compile_program (s ⨾ p) a = do
      (op, a₁) ← compile_statement s a
      (code, a₂) ← compile_program p a₁
      ok (op ⨾ code, a₂)

    pub compile_statement : Peephole.Statement → A → Result (Statement × A)
    compile_statement (instr i) a = emit i a >>= λ (op, a'). ok (instr op, a')
    compile_statement (loop body) a = do
      inside ← analysis.enter_loop body a
      (code, a₁) ← compile_program body inside
      a₂ ← analysis.leave_loop a₁
      ok (loop code, a₂)

unfoldable pub compile : Peephole.Program → Bool → Result Program
unfolding compile_program abstract_interpreter no_analysis
compile program true =
    compile_program abstract_interpreter true program abstract_interpreter.new >>= λ (code, _).
    ok code
compile program false =
    compile_program no_analysis false program no_analysis.new >>= λ (code, _). ok code
