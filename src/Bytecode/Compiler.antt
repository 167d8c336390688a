-- ===== src/Bytecode/Compiler.antt =====
-- src/bytecode/compiler.rs. The compiler's one field, the vector of instructions, is passed along.
use bf_rs.Prelude.{ℕ, ◌+◌, ◌%◌, [], ◌∷◌, ◌++◌, length, set, ◌==◌, if◌then◌else◌}
use bf_rs.Common.{jump_zero, jump_not_zero, Result, ok, panic, ◌>>=◌}
use bf_rs.Tree.{nil, ◌⨾◌, instr, loop}
use bf_rs.Peephole
use bf_rs.Bytecode.{Program}

-- `count as Count`, and the assertion that nothing was lost.
unfoldable pub usize_to_count : ℕ → ℕ → Result ℕ
usize_to_count count_max count =
    let result = count % (count_max + 1) in if result == count then ok result else panic

unfoldable mutual
  unfolding usize_to_count

  pub compile_into : ℕ → Peephole.Program → Program → Result Program
  compile_into count_max nil code = ok code
  compile_into count_max (s ⨾ p) code =
      compile_statement count_max s code >>= compile_into count_max p

  pub compile_statement : ℕ → Peephole.Statement → Program → Result Program
  compile_statement count_max (instr i) code = ok (code ++ (i ∷ []))
  compile_statement count_max (loop body) code = do
    let begin_pc = length code
    code' ← compile_into count_max body (code ++ (jump_zero 0 ∷ []))
    let end_pc = length code'
    back ← usize_to_count count_max begin_pc
    forth ← usize_to_count count_max end_pc
    ok (set (code' ++ (jump_not_zero back ∷ [])) begin_pc (jump_zero forth))

unfoldable pub compile : ℕ → Peephole.Program → Result Program
unfolding compile_into
compile count_max src = compile_into count_max src []
