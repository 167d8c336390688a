-- ===== src/Peephole/Interpreter.antt =====
-- src/peephole/interpreter.rs.
use bf_rs.Prelude.{ℕ, ◌==◌, if◌then◌else◌}
use bf_rs.Common.{
  Instruction, left, right, add, in_, out, jump_zero, jump_not_zero, set_zero, offset_add_right,
  offset_add_left, find_zero_right, find_zero_left, Result, ◌>>=◌,
}
use bf_rs.State
use bf_rs.State.{State, load, store, up_pos_offset, up_neg_offset}
use bf_rs.Machine.{
  Machine, Outcome, done, panicked, with_result, on_state, read_byte, write_byte, while_nonzero,
}
use bf_rs.Tree
use bf_rs.Peephole.{Program}

-- `state.store(0); state.up_pos_offset(offset, value)?;`, and the same to the left.
unfoldable pub move_right : ℕ → ℕ → State → Result State
move_right offset value s = do s' ← store 0 s; up_pos_offset offset value s'

unfoldable pub move_left : ℕ → ℕ → State → Result State
move_left offset value s = do s' ← store 0 s; up_neg_offset offset value s'

-- The arms of `interpret_instruction` for `Instr`.
unfoldable pub exec : ℕ → Instruction → Machine → Outcome
exec fuel (left count) m = on_state (State.left count) m
exec fuel (right count) m = on_state (State.right count) m
exec fuel (add amount) m = on_state (State.up amount) m
exec fuel in_ m = read_byte m
exec fuel out m = write_byte m
exec fuel set_zero m = on_state (store 0) m
exec fuel (offset_add_right offset) m =
    with_result m.io (load m.state)
      λ value. if value == 0 then done m else on_state (move_right offset value) m
exec fuel (offset_add_left offset) m =
    with_result m.io (load m.state)
      λ value. if value == 0 then done m else on_state (move_left offset value) m
exec fuel (find_zero_right skip) m = while_nonzero fuel (on_state (State.right skip)) m
exec fuel (find_zero_left skip) m = while_nonzero fuel (on_state (State.left skip)) m
exec fuel (jump_zero _) m = panicked m.io
exec fuel (jump_not_zero _) m = panicked m.io

unfoldable pub interpret : ℕ → Program → Machine → Outcome
interpret = Tree.interpret exec
