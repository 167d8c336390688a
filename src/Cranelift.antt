-- ===== src/Cranelift.antt =====
-- src/cranelift/compiler.rs: what the generated code does on a host. An access outside the memory is
-- a panic, as for src/jit. The labels of a loop are its place in the tree.
pub mod Moves
pub mod Transfers
pub mod Correct
pub mod Outside
pub mod Silent
use bf_rs.Prelude.{ℕ, ◌+◌, ◌-◌, ◌%◌, Bool, false, leb, ltb, ◌==◌, if◌then◌else◌, length}
use bf_rs.Common.{
  Instruction, left, right, add, in_, out, jump_zero, jump_not_zero, set_zero, offset_add_right,
  offset_add_left, find_zero_right, find_zero_left, Result, ok, err, pointer_overflow,
  pointer_underflow, ◌>>=◌,
}
use bf_rs.State
use bf_rs.State.{State, usize_mod, load, store, modify, wrapping_add}
use bf_rs.Machine.{
  Machine, Outcome, done, with_result, on_state, read_byte, write_byte, while_nonzero,
}
use bf_rs.Tree
use bf_rs.Peephole.{Program}

-- `iadd_imm`, forwards and backwards.
abbrev pub forth : ℕ → ℕ → ℕ
forth address n = (address + n) % usize_mod

abbrev pub back : ℕ → ℕ → ℕ
back address n = (address + (usize_mod - n % usize_mod)) % usize_mod

-- Without a comparison.
unfoldable pub skip_right : ℕ → State → Result State
skip_right count s = ok (record s { pointer = forth s.pointer count })

unfoldable pub skip_left : ℕ → State → Result State
skip_left count s = ok (record s { pointer = back s.pointer count })

-- The other cell is changed first, and then the own cell is cleared.
unfoldable pub add_right : ℕ → ℕ → State → Result State
add_right offset value s = do
  s' ← modify (wrapping_add value) (forth s.pointer offset) s
  store 0 s'

unfoldable pub add_left : ℕ → ℕ → State → Result State
add_left offset value s = do s' ← modify (wrapping_add value) (back s.pointer offset) s; store 0 s'

-- A convention for calls, by its name.
pub data CallConv : Type 0 where
  win64 : CallConv
  system_v : CallConv
  other : ℕ → CallConv

-- What is not up to the program: the address of the memory, the convention by which Cranelift calls
-- an import of no other declared convention, and what a callee does that looks for its arguments
-- where another convention has them.
pub record Host : Type 0 where
  pub mem_start : ℕ
  pub default_call_conv : CallConv
  pub misplaced_read : Machine → Outcome
  pub misplaced_write : Machine → Outcome

-- `call_rts`: the functions of the run-time system are `extern "win64"`, and `make_signature` gives
-- the default convention.
abbrev pub call_rts : CallConv → (Machine → Outcome) → (Machine → Outcome) → Machine → Outcome
call_rts win64 callee misplaced = callee
call_rts system_v callee misplaced = misplaced
call_rts (other _) callee misplaced = misplaced

module _ (mem_start : ℕ) where
  -- The comparison is one of addresses, with `mem_limit`.
  unfoldable pub go_right : ℕ → State → Result State
  go_right count s =
      let new_ptr = forth (mem_start + s.pointer) count in
      if leb (forth mem_start (length s.memory)) new_ptr
      then err pointer_overflow
      else ok (record s { pointer = back new_ptr mem_start })

  unfoldable pub go_left : ℕ → State → Result State
  go_left count s =
      let new_ptr = back (mem_start + s.pointer) count in
      if ltb new_ptr mem_start
      then err pointer_underflow
      else ok (record s { pointer = back new_ptr mem_start })

module _ (host : Host) where
  -- `compile_statement`; a jump is ignored, as any instruction without an arm.
  unfoldable pub exec : ℕ → Instruction → Machine → Outcome
  exec fuel (right count) m = on_state (go_right host.mem_start count) m
  exec fuel (left count) m = on_state (go_left host.mem_start count) m
  exec fuel (add count) m = on_state (State.up count) m
  exec fuel set_zero m = on_state (store 0) m
  exec fuel out m = call_rts host.default_call_conv write_byte host.misplaced_write m
  exec fuel in_ m = call_rts host.default_call_conv read_byte host.misplaced_read m
  exec fuel (find_zero_right skip) m = while_nonzero fuel (on_state (skip_right skip)) m
  exec fuel (find_zero_left skip) m = while_nonzero fuel (on_state (skip_left skip)) m
  exec fuel (offset_add_right offset) m =
      with_result m.io (load m.state)
        λ val. if val == 0 then done m else on_state (add_right offset val) m
  exec fuel (offset_add_left offset) m =
      with_result m.io (load m.state)
        λ val. if val == 0 then done m else on_state (add_left offset val) m
  exec fuel (jump_zero _) m = done m
  exec fuel (jump_not_zero _) m = done m

  unfoldable pub interpret : ℕ → Program → Machine → Outcome
  interpret = Tree.interpret exec
