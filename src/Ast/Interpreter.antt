-- ===== src/Ast/Interpreter.antt =====
-- src/ast/interpreter.rs.
use bf_rs.Prelude.{ℕ}
use bf_rs.Common.{Command, right, left, up, down, in_, out, begin, end}
use bf_rs.State
use bf_rs.Machine.{Machine, Outcome, panicked, on_state, read_byte, write_byte}
use bf_rs.Tree
use bf_rs.Ast.{Program}

-- The arms of `interpret_instruction` for `Cmd`.
unfoldable pub interpret_command : Command → Machine → Outcome
interpret_command left m = on_state (State.left 1) m
interpret_command right m = on_state (State.right 1) m
interpret_command up m = on_state (State.up 1) m
interpret_command down m = on_state (State.down 1) m
interpret_command in_ m = read_byte m
interpret_command out m = write_byte m
interpret_command begin m = panicked m.io
interpret_command end m = panicked m.io

abbrev pub exec : ℕ → Command → Machine → Outcome
exec fuel = interpret_command

unfoldable pub interpret : ℕ → Program → Machine → Outcome
interpret = Tree.interpret exec
