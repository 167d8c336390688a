-- ===== src/Rle/Interpreter.antt =====
-- src/rle/interpreter.rs.
use bf_rs.Prelude.{ℕ, zero, suc, ◌%◌}
use bf_rs.Common.{Command, right, left, up, down, in_, out, begin, end}
use bf_rs.State
use bf_rs.State.{byte_mod}
use bf_rs.Machine.{Machine, Outcome, done, panicked, ◌>>=◌, on_state, read_byte, write_byte}
use bf_rs.Tree
use bf_rs.Rle.{Program, Run}

-- `for _ in 0..count { body }`.
unfoldable pub repeat : ℕ → (Machine → Outcome) → Machine → Outcome
repeat zero body m = done m
repeat (suc n) body m = body m >>= repeat n body

-- The arms of `interpret_instruction` for `Cmd`; `count as u8` is `count % 256`.
unfoldable pub interpret_command : Command → ℕ → Machine → Outcome
unfolding repeat
interpret_command left count m = on_state (State.left count) m
interpret_command right count m = on_state (State.right count) m
interpret_command up count m = on_state (State.up (count % byte_mod)) m
interpret_command down count m = on_state (State.down (count % byte_mod)) m
interpret_command in_ count m = repeat count read_byte m
interpret_command out count m = repeat count write_byte m
interpret_command begin count m = panicked m.io
interpret_command end count m = panicked m.io

abbrev pub exec : ℕ → Run → Machine → Outcome
exec fuel r = interpret_command r.command r.count

unfoldable pub interpret : ℕ → Program → Machine → Outcome
interpret = Tree.interpret exec
