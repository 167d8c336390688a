-- ===== src/Peephole/Compiler.antt =====
-- src/peephole/compiler.rs. The compiler's one field, the vector of statements, is passed along.
use bf_rs.Prelude.{ℕ, zero, suc, ◌-◌, ◌%◌, ◌&&◌, ◌||◌, ◌==◌, if◌then◌else◌, Option, none, some}
use bf_rs.Common.{
  Command, Instruction, left, right, add, in_, out, set_zero, offset_add_right, offset_add_left,
  find_zero_right, find_zero_left, Result, ok, panic, ◌>>=◌,
}
use bf_rs.State.{byte_mod}
use bf_rs.Tree.{nil, ◌⨾◌, instr, loop, push}
use bf_rs.Rle
use bf_rs.Peephole.{Statement, Program}

unfoldable pub set_zero_peephole : Program → Option Instruction
set_zero_peephole (instr (add n) ⨾ nil) = if n == 1 || n == 255 then some set_zero else none
set_zero_peephole _ = none

unfoldable pub find_zero_peephole : Program → Option Instruction
find_zero_peephole (instr (right count) ⨾ nil) = some (find_zero_right count)
find_zero_peephole (instr (left count) ⨾ nil) = some (find_zero_left count)
find_zero_peephole _ = none

unfoldable pub offset_add_peephole : Program → Option Instruction
offset_add_peephole (instr (add a) ⨾ instr (right l) ⨾ instr (add b) ⨾ instr (left r) ⨾ nil) =
    if a == 255 && b == 1 && l == r then some (offset_add_right l) else none
offset_add_peephole (instr (add a) ⨾ instr (left l) ⨾ instr (add b) ⨾ instr (right r) ⨾ nil) =
    if a == 255 && b == 1 && l == r then some (offset_add_left l) else none
offset_add_peephole _ = none

-- `Option::or_else`, as the macro `or_else!` chains it.
unfoldable pub or_else : Option Instruction → Option Instruction → Option Instruction
or_else (some i) o = some i
or_else none o = o

unfoldable pub peephole : Program → Option Instruction
unfolding set_zero_peephole find_zero_peephole offset_add_peephole or_else
peephole body =
    or_else (set_zero_peephole body) (or_else (find_zero_peephole body) (offset_add_peephole body))

-- What a loop over `body` becomes.
abbrev pub loop_or : Program → Option Instruction → Statement
loop_or body (some i) = instr i
loop_or body none = loop body

-- `for _ in 0..count { self.push(instr); }`.
unfoldable pub push_times : ℕ → Instruction → Program → Program
push_times zero i code = code
push_times (suc n) i code = push_times n i (push code (instr i))

-- The arms of `compile` for `Cmd`; an `as u8` is a `% 256`.
unfoldable pub compile_run : Command → ℕ → Program → Result Program
unfolding push_times
compile_run Command.right count code = ok (push code (instr (right count)))
compile_run Command.left count code = ok (push code (instr (left count)))
compile_run Command.up count code = ok (push code (instr (add (count % 256 % byte_mod))))
compile_run Command.down count code = ok (push code (instr (add ((256 - count % 256) % byte_mod))))
compile_run Command.in_ count code = ok (push_times count in_ code)
compile_run Command.out count code = ok (push_times count out code)
compile_run Command.begin count code = panic
compile_run Command.end count code = panic

unfoldable mutual
  unfolding peephole compile_run

  pub compile_into : Rle.Program → Program → Result Program
  compile_into nil code = ok code
  compile_into (s ⨾ p) code = compile_statement s code >>= compile_into p

  pub compile_statement : Rle.Statement → Program → Result Program
  compile_statement (instr r) code = compile_run r.command r.count code
  compile_statement (loop body) code =
      compile_into body nil >>= λ code'. ok (push code (loop_or code' (peephole code')))

unfoldable pub compile : Rle.Program → Result Program
unfolding compile_into
compile src = compile_into src nil
