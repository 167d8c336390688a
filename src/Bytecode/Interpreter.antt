-- ===== src/Bytecode/Interpreter.antt =====
-- src/bytecode/interpreter.rs.
use bf_rs.Prelude.{ℕ, zero, suc, ◌+◌, get_elem?, Option, none, some, ◌==◌, if◌then◌else◌}
use bf_rs.Common
use bf_rs.Common.{
  Instruction, left, right, add, in_, out, jump_zero, jump_not_zero, set_zero, offset_add_right,
  offset_add_left, find_zero_right, find_zero_left, Result,
}
use bf_rs.State
use bf_rs.State.{State, load, store, up_pos_offset, up_neg_offset}
use bf_rs.Machine.{
  Machine, Outcome, done, out_of_fuel, ◌>>=◌, with_result, on_state, read_byte, write_byte,
  while_nonzero,
}
use bf_rs.Bytecode.{Program}

-- The arm of `OffsetAddRight` reads the cell twice, `if state.load() != 0 { let value = …`.
unfoldable pub move_right : ℕ → State → Result State
move_right offset s =
    Common.◌>>=◌ (load s) λ value. Common.◌>>=◌ (store 0 s) λ s'. up_pos_offset offset value s'

unfoldable pub move_left : ℕ → State → Result State
move_left offset s =
    Common.◌>>=◌ (load s) λ value. Common.◌>>=◌ (store 0 s) λ s'. up_neg_offset offset value s'

-- The body of the `while` loop, with `k` for the rounds that follow.
unfoldable pub step : ℕ → Instruction → ℕ → Machine → (ℕ → Machine → Outcome) → Outcome
unfolding move_right move_left
step fuel (left count) pc m k = on_state (State.left count) m >>= k (pc + 1)
step fuel (right count) pc m k = on_state (State.right count) m >>= k (pc + 1)
step fuel (add count) pc m k = on_state (State.up count) m >>= k (pc + 1)
step fuel in_ pc m k = read_byte m >>= k (pc + 1)
step fuel out pc m k = write_byte m >>= k (pc + 1)
step fuel (jump_zero address) pc m k =
    with_result m.io (load m.state) λ b. k ((if b == 0 then address else pc) + 1) m
step fuel (jump_not_zero address) pc m k =
    with_result m.io (load m.state) λ b. k ((if b == 0 then pc else address) + 1) m
step fuel set_zero pc m k = on_state (store 0) m >>= k (pc + 1)
step fuel (offset_add_right offset) pc m k =
    (with_result m.io (load m.state) λ b. if b == 0 then done m else on_state (move_right offset) m)
    >>= k (pc + 1)
step fuel (offset_add_left offset) pc m k =
    (with_result m.io (load m.state) λ b. if b == 0 then done m else on_state (move_left offset) m)
    >>= k (pc + 1)
step fuel (find_zero_right offset) pc m k =
    while_nonzero fuel (on_state (State.right offset)) m >>= k (pc + 1)
step fuel (find_zero_left offset) pc m k =
    while_nonzero fuel (on_state (State.left offset)) m >>= k (pc + 1)

-- What a round does with the instruction at `pc`, where there is one.
abbrev pub at_end_or : Outcome → (Instruction → Outcome) → Option Instruction → Outcome
at_end_or at_end f none = at_end
at_end_or at_end f (some i) = f i

-- `while pc < instructions.len()`, for `rounds` rounds; `fuel` is for the loops inside a round.
unfoldable pub run : ℕ → ℕ → Program → ℕ → Machine → Outcome
unfolding step
run fuel zero code pc m = out_of_fuel
run fuel (suc rounds) code pc m =
    at_end_or (done m) (λ i. step fuel i pc m (run fuel rounds code)) (get_elem? code pc)

unfoldable pub interpret : ℕ → ℕ → Program → Machine → Outcome
unfolding run
interpret fuel rounds code m = run fuel rounds code 0 m
