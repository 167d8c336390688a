-- ===== src/Llvm/Compiler.antt =====
-- src/llvm/compiler.rs: which code is emitted for a program.
use bf_rs.Common.{Instruction, Result, ok, panic, ◌>>=◌}
use bf_rs.Tree.{nil, ◌⨾◌, instr, loop}
use bf_rs.Peephole
use bf_rs.Llvm.{Op, Statement, Program}

-- The arms of `compile_block` for `Instr`. The two searches call `compile_block` on a loop around
-- one move, and this is what it emits for them.
unfoldable pub emit : Instruction → Result Statement
emit (Instruction.right count) = ok (instr (Op.right count))
emit (Instruction.left count) = ok (instr (Op.left count))
emit (Instruction.add count) = ok (instr (Op.add count))
emit Instruction.in_ = ok (instr Op.in_)
emit Instruction.out = ok (instr Op.out)
emit Instruction.set_zero = ok (instr Op.set_zero)
emit (Instruction.find_zero_right count) = ok (loop (instr (Op.right count) ⨾ nil))
emit (Instruction.find_zero_left count) = ok (loop (instr (Op.left count) ⨾ nil))
emit (Instruction.offset_add_right count) = ok (instr (Op.offset_add_right count))
emit (Instruction.offset_add_left count) = ok (instr (Op.offset_add_left count))
emit (Instruction.jump_zero _) = panic
emit (Instruction.jump_not_zero _) = panic

unfoldable mutual
  unfolding emit

  pub compile_block : Peephole.Program → Result Program
  compile_block nil = ok nil
  compile_block (s ⨾ p) = do code ← compile_statement s; rest ← compile_block p; ok (code ⨾ rest)

  pub compile_statement : Peephole.Statement → Result Statement
  compile_statement (instr i) = emit i
  compile_statement (loop body) = compile_block body >>= λ code. ok (loop code)
