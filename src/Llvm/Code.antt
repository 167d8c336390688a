-- ===== src/Llvm/Code.antt =====
-- src/llvm/compiler.rs: what the emitted code does. The pointer is an index into the memory, and a
-- sum of 64 bits wraps; an access outside the memory is a panic.
use bf_rs.Prelude.{ℕ, ◌+◌, ◌-◌, ◌%◌, leb, ltb, ◌==◌, if◌then◌else◌, length}
use bf_rs.Common.{Result, ok, err, pointer_overflow, pointer_underflow, ◌>>=◌}
use bf_rs.State
use bf_rs.State.{State, usize_mod, load, store, modify, wrapping_add}
use bf_rs.Machine.{Machine, Outcome, done, with_result, on_state, read_byte, write_byte}
use bf_rs.Tree
use bf_rs.Llvm.{
  Op, right, left, add, in_, out, set_zero, offset_add_right, offset_add_left, Program,
}

-- `sub memory_size, pointer`, an unsigned `icmp`, and `add pointer, offset`.
unfoldable pub load_pos_offset : ℕ → State → Result ℕ
load_pos_offset offset s =
    let allowed = (length s.memory + (usize_mod - s.pointer % usize_mod)) % usize_mod in
    if ltb offset allowed then ok ((s.pointer + offset) % usize_mod) else err pointer_overflow

-- An unsigned `icmp`, and `sub pointer, offset`.
unfoldable pub load_neg_offset : ℕ → State → Result ℕ
load_neg_offset offset s =
    if leb offset s.pointer
    then ok ((s.pointer + (usize_mod - offset % usize_mod)) % usize_mod)
    else err pointer_underflow

unfoldable pub go_right : ℕ → State → Result State
unfolding load_pos_offset
go_right count s = do new_pointer ← load_pos_offset count s; ok (record s { pointer = new_pointer })

unfoldable pub go_left : ℕ → State → Result State
unfolding load_neg_offset
go_left count s = do new_pointer ← load_neg_offset count s; ok (record s { pointer = new_pointer })

-- The block `do_it` of the two transfers.
unfoldable pub transfer_right : ℕ → State → Result State
unfolding load_pos_offset
transfer_right count s = do
  pointer ← load_pos_offset count s
  to_add ← load s
  s' ← store 0 s
  modify (wrapping_add to_add) pointer s'

unfoldable pub transfer_left : ℕ → State → Result State
unfolding load_neg_offset
transfer_left count s = do
  pointer ← load_neg_offset count s
  to_add ← load s
  s' ← store 0 s
  modify (wrapping_add to_add) pointer s'

unfoldable pub exec : ℕ → Op → Machine → Outcome
exec fuel (right count) m = on_state (go_right count) m
exec fuel (left count) m = on_state (go_left count) m
exec fuel (add count) m = on_state (State.up count) m
exec fuel in_ m = read_byte m
exec fuel out m = write_byte m
exec fuel set_zero m = on_state (store 0) m
exec fuel (offset_add_right count) m =
    with_result m.io (load m.state)
      λ byte. if byte == 0 then done m else on_state (transfer_right count) m
exec fuel (offset_add_left count) m =
    with_result m.io (load m.state)
      λ byte. if byte == 0 then done m else on_state (transfer_left count) m

unfoldable pub interpret : ℕ → Program → Machine → Outcome
interpret = Tree.interpret exec
