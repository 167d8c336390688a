-- ===== src/Rle/Compiler.antt =====
-- src/rle/compiler.rs. `count_max` is the largest `Count`, which the features `u16count` and
-- `u32count` choose.
use bf_rs.Prelude.{ℕ, ◌+◌, Bool, true, false, ltb, if◌then◌else◌, Option, none, some}
use bf_rs.Common.{Command, right, left, up, down, in_, out, begin, end}
use bf_rs.Tree.{nil, ◌⨾◌, instr, loop, push}
use bf_rs.Ast
use bf_rs.Rle.{Program, run}

pub record Compiler : Type 0 where
  pub instructions : Program
  pub last_command : Command
  pub last_repeat : ℕ

unfoldable pub new : Compiler
new = record { instructions = nil; last_command = right; last_repeat = 0 }

-- `#[derive(PartialEq)]`.
infix 50 ◌==◌
unfoldable pub ◌==◌ : Command → Command → Bool
right == right = true
left == left = true
up == up = true
down == down = true
in_ == in_ = true
out == out = true
begin == begin = true
end == end = true
_ == _ = false

unfoldable pub push_op : Compiler → Compiler
push_op c =
    if ltb 0 c.last_repeat
    then record {
      instructions = push c.instructions (instr (run c.last_command c.last_repeat));
      last_command = right;
      last_repeat = 0;
    }
    else c

-- `Count::checked_add(1)`.
unfoldable pub checked_add : ℕ → ℕ → Option ℕ
checked_add count_max n = if ltb n count_max then some (n + 1) else none

-- The two arms of `if let` on the sum.
unfoldable pub repeat_or_push : Compiler → Option ℕ → Compiler
unfolding push_op
repeat_or_push c (some last_repeat) = record c { last_repeat = last_repeat }
repeat_or_push c none = record (push_op c) { last_repeat = 1 }

unfoldable pub issue_op : ℕ → Command → Compiler → Compiler
unfolding push_op checked_add repeat_or_push ◌==◌
issue_op count_max cmd c =
    if cmd == c.last_command
    then repeat_or_push c (checked_add count_max c.last_repeat)
    else record (push_op c) { last_command = cmd; last_repeat = 1 }

unfoldable pub issue_loop : Program → Compiler → Compiler
unfolding push_op
issue_loop body c =
    let c' = push_op c in record c' { instructions = push c'.instructions (loop body) }

unfoldable pub into_program : Compiler → Program
unfolding push_op
into_program c = (push_op c).instructions

-- `Compiler::compile`, and one turn of its loop.
unfoldable mutual
  unfolding new issue_op issue_loop into_program

  pub compile_into : ℕ → Ast.Program → Compiler → Compiler
  compile_into count_max nil c = c
  compile_into count_max (s ⨾ p) c = compile_into count_max p (compile_statement count_max s c)

  pub compile_statement : ℕ → Ast.Statement → Compiler → Compiler
  compile_statement count_max (instr cmd) c = issue_op count_max cmd c
  compile_statement count_max (loop body) c =
      issue_loop (into_program (compile_into count_max body new)) c

unfoldable pub compile : ℕ → Ast.Program → Program
unfolding compile_into
compile count_max program = into_program (compile_into count_max program new)
