-- ===== src/Jit/Code.antt =====
-- src/jit/compiler.rs: what the emitted code does. The pointer is its distance from the start of
-- the memory; a register is a word of 64 bits; an access outside the memory, which the processor
-- would make all the same, is a panic.
use bf_rs.Prelude.{ℕ, ◌+◌, ◌-◌, ◌%◌, ◌^◌, Bool, ◌&&◌, leb, ltb, ◌==◌, if◌then◌else◌, length}
use bf_rs.Common.{Result, ok, err, pointer_overflow, pointer_underflow, ◌>>=◌}
use bf_rs.State
use bf_rs.State.{State, usize_mod, load, store, modify, wrapping_add}
use bf_rs.Machine.{
  Machine, Outcome, done, with_result, on_state, read_byte, write_byte, while_nonzero,
}
use bf_rs.Tree
use bf_rs.Jit.Constant.{usize, load_constant}
use bf_rs.Jit.{
  Op, right, left, add, in_, out, set_zero, find_zero_right, find_zero_left, offset_add_right,
  offset_add_left, Program,
}

-- A word as a signed number, moved up to where words are compared as unsigned ones.
abbrev pub signed : ℕ → ℕ
signed word = (word + 2 ^ 63) % usize_mod

-- `mov rcx, mem_limit; sub rcx, pointer; cmp rcx, rax; jle ->overflow`.
unfoldable pub load_pos_offset : ℕ → Bool → State → Result ℕ
unfolding load_constant
load_pos_offset offset check s =
    let rax = load_constant usize offset in
    let rcx = (length s.memory + (usize_mod - s.pointer % usize_mod)) % usize_mod in
    if check && leb (signed rcx) (signed rax) then err pointer_overflow else ok rax

-- `mov rcx, pointer; sub rcx, mem_start; cmp rcx, rax; jl ->underflow`.
unfoldable pub load_neg_offset : ℕ → Bool → State → Result ℕ
unfolding load_constant
load_neg_offset offset check s =
    let rax = load_constant usize offset in
    if check && ltb (signed s.pointer) (signed rax) then err pointer_underflow else ok rax

-- `add pointer, rax` and `sub pointer, rax`.
unfoldable pub go_right : ℕ → Bool → State → Result State
unfolding load_pos_offset
go_right count check s = do
  rax ← load_pos_offset count check s
  ok (record s { pointer = (s.pointer + rax) % usize_mod })

unfoldable pub go_left : ℕ → Bool → State → Result State
unfolding load_neg_offset
go_left count check s = do
  rax ← load_neg_offset count check s
  ok (record s { pointer = (s.pointer + (usize_mod - rax % usize_mod)) % usize_mod })

-- `mov cl, BYTE [pointer]; mov BYTE [pointer], 0; add BYTE [pointer + rax], cl`.
unfoldable pub transfer_right : ℕ → Bool → State → Result State
unfolding load_pos_offset
transfer_right offset check s = do
  rax ← load_pos_offset offset check s
  cl ← load s
  s' ← store 0 s
  modify (wrapping_add cl) ((s.pointer + rax) % usize_mod) s'

unfoldable pub transfer_left : ℕ → Bool → State → Result State
unfolding load_neg_offset
transfer_left offset check s = do
  rax ← load_neg_offset offset check s
  cl ← load s
  s' ← store 0 s
  modify (wrapping_add cl) ((s.pointer + (usize_mod - rax % usize_mod)) % usize_mod) s'

unfoldable pub exec : ℕ → Op → Machine → Outcome
exec fuel (right count check) m = on_state (go_right count check) m
exec fuel (left count check) m = on_state (go_left count check) m
exec fuel (add count) m = on_state (State.up count) m
exec fuel in_ m = read_byte m
exec fuel out m = write_byte m
exec fuel set_zero m = on_state (store 0) m
exec fuel (find_zero_right skip check) m = while_nonzero fuel (on_state (go_right skip check)) m
exec fuel (find_zero_left skip check) m = while_nonzero fuel (on_state (go_left skip check)) m
exec fuel (offset_add_right offset check) m =
    with_result m.io (load m.state)
      λ value. if value == 0 then done m else on_state (transfer_right offset check) m
exec fuel (offset_add_left offset check) m =
    with_result m.io (load m.state)
      λ value. if value == 0 then done m else on_state (transfer_left offset check) m

unfoldable pub interpret : ℕ → Program → Machine → Outcome
interpret = Tree.interpret exec
