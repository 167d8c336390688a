-- ===== src/Cranelift/Correct.antt =====
-- src/cranelift/compiler.rs: the code of a whole program.
use bf_rs.Prelude.{ℕ, ◌+◌, ◌≤◌, ◌≡◌, refl, ap, length, arith}
use bf_rs.Common.{
  Instruction, left, right, add, in_, out, jump_zero, jump_not_zero, set_zero, offset_add_right,
  offset_add_left, find_zero_right, find_zero_left,
}
use bf_rs.State
use bf_rs.State.{State}
use bf_rs.State.Valid.{isize_max, load_valid}
use bf_rs.Machine.{Machine, on_state, read_byte, write_byte}
use bf_rs.Machine.Laws.{IsValidMachine, Post-bind}
use bf_rs.Machine.Inside.{
  IsInside, Follows, Keeps, seq-Follows, while_nonzero-Follows, on_state-Follows, guarded-Follows,
}
use bf_rs.Tree
use bf_rs.Tree.{nil, ◌⨾◌, instr, loop, AllInstr, AllStatement, interpret_statement}
use bf_rs.Peephole
use bf_rs.Peephole.Interpreter as Nested
use bf_rs.Peephole.Interpreter.{move_right, move_left}
use bf_rs.Peephole.Safety.{IsFine, IsFineUpTo, widen}
use bf_rs.Jit.Moves.Instructions.{while_nonzero-Post}
use bf_rs.Peephole.Size.{HasSize, exec-HasSize}
use bf_rs.Cranelift
use bf_rs.Cranelift.{
  Host, win64, call_rts, go_right, go_left, skip_right, skip_left, add_right, add_left,
}
use bf_rs.Cranelift.Moves.{
  go_right-at_addresses, go_left-at_addresses, skip_right-inside, skip_left-inside,
}
use bf_rs.Cranelift.Transfers.{add_right-inside, add_left-inside}

-- No move to the left is longer than the address of the memory.
abbrev pub IsBelow : ℕ → Instruction → Type 0
IsBelow mem_start (left n) = n ≤ mem_start
IsBelow mem_start _ = Unit

abbrev pub IsAddressable : ℕ → Instruction → Type 0
IsAddressable mem_start i = IsFine i × IsBelow mem_start i

pub addressable :
    (mem_start : ℕ) (i : Instruction)
    → mem_start ≤ isize_max
    → IsFineUpTo mem_start i
    → IsAddressable mem_start i
addressable mem_start (left n) h f = (widen mem_start (left n) h f, f.1)
addressable mem_start (right n) h f = (widen mem_start (right n) h f, tt)
addressable mem_start (add n) h f = (f, tt)
addressable mem_start in_ h f = (tt, tt)
addressable mem_start out h f = (tt, tt)
addressable mem_start set_zero h f = (tt, tt)
addressable mem_start (jump_zero n) h f = absurd f
addressable mem_start (jump_not_zero n) h f = absurd f
addressable mem_start (offset_add_right n) h f = (widen mem_start (offset_add_right n) h f, tt)
addressable mem_start (offset_add_left n) h f = (widen mem_start (offset_add_left n) h f, tt)
addressable mem_start (find_zero_right n) h f = (widen mem_start (find_zero_right n) h f, tt)
addressable mem_start (find_zero_left n) h f = (widen mem_start (find_zero_left n) h f, tt)

module _ (host : Host) (size : ℕ) (room : host.mem_start + size ≤ isize_max)
    (win : host.default_call_conv ≡ win64) (fuel : ℕ) where
  exec-Follows :
      (i : Instruction)
      → IsAddressable host.mem_start i
      → Follows (HasSize size) (Cranelift.exec host fuel i) (Nested.exec fuel i)
  unfolding Cranelift.exec Nested.exec
  exec-Follows (right n) f m v h =
      on_state-Follows (go_right host.mem_start n) (State.right n) m
        (λ _.
          go_right-at_addresses host.mem_start n m.state v.valid.valid f.0.1
            (omega (arith, v.length_is)))
        h
  exec-Follows (left n) f m v h =
      on_state-Follows (go_left host.mem_start n) (State.left n) m
        (λ _.
          go_left-at_addresses host.mem_start n m.state v.valid.valid f.0.1
            (omega (arith, v.length_is)) f.1)
        h
  exec-Follows (add n) f m v h = refl
  exec-Follows in_ f m v h = ap (λ c. call_rts c read_byte host.misplaced_read m) win
  exec-Follows out f m v h = ap (λ c. call_rts c write_byte host.misplaced_write m) win
  exec-Follows set_zero f m v h = refl
  exec-Follows (find_zero_right n) f m v h =
      while_nonzero-Follows (HasSize size) fuel (on_state (skip_right n)) (on_state (State.right n))
        (exec-HasSize size fuel (right n) f.0)
        (λ m' v'.
          on_state-Follows (skip_right n) (State.right n) m'
            (skip_right-inside n m'.state v'.valid.valid))
        m v h
  exec-Follows (find_zero_left n) f m v h =
      while_nonzero-Follows (HasSize size) fuel (on_state (skip_left n)) (on_state (State.left n))
        (exec-HasSize size fuel (left n) f.0)
        (λ m' v'.
          on_state-Follows (skip_left n) (State.left n) m'
            (skip_left-inside n m'.state v'.valid.valid))
        m v h
  exec-Follows (offset_add_right n) f m v h =
      let (b, _, e, _) = load_valid m.state v.valid.valid in
      guarded-Follows m (add_right n) (move_right n) b e
        (add_right-inside m.state v.valid.valid n b f.0.0 f.0.1) h
  exec-Follows (offset_add_left n) f m v h =
      let (b, _, e, _) = load_valid m.state v.valid.valid in
      guarded-Follows m (add_left n) (move_left n) b e
        (add_left-inside m.state v.valid.valid n b f.0.0 f.0.1) h
  exec-Follows (jump_zero n) f m v h = absurd f.0
  exec-Follows (jump_not_zero n) f m v h = absurd f.0

  mutual
    unfolding Cranelift.interpret Nested.interpret Tree.interpret

    program-Keeps :
        (p : Peephole.Program)
        → AllInstr (IsAddressable host.mem_start) p
        → Keeps (HasSize size) (Nested.interpret fuel p)
    program-Keeps nil f m v = v
    program-Keeps (s ⨾ p) f m v =
        Post-bind (HasSize size) (interpret_statement Nested.exec fuel s m) _
          (statement-Keeps s f.0 m v) (program-Keeps p f.1)

    statement-Keeps :
        (s : Peephole.Statement)
        → AllStatement (IsAddressable host.mem_start) s
        → Keeps (HasSize size) (interpret_statement Nested.exec fuel s)
    statement-Keeps (instr i) f m v = exec-HasSize size fuel i f.0 m v
    statement-Keeps (loop body) f m v =
        while_nonzero-Post (HasSize size) (λ m' h. h.valid) fuel (Nested.interpret fuel body)
          (program-Keeps body f) m v

  mutual
    unfolding Cranelift.interpret Nested.interpret Tree.interpret

    program-Follows :
        (p : Peephole.Program)
        → AllInstr (IsAddressable host.mem_start) p
        → Follows (HasSize size) (Cranelift.interpret host fuel p) (Nested.interpret fuel p)
    program-Follows nil f m v h = refl
    program-Follows (s ⨾ p) f m v h =
        seq-Follows (HasSize size) _ (interpret_statement Nested.exec fuel s) _ _
          (statement-Keeps s f.0) (statement-Follows s f.0) (program-Follows p f.1) m v h

    statement-Follows :
        (s : Peephole.Statement)
        → AllStatement (IsAddressable host.mem_start) s
        → Follows
            (HasSize size)
            (interpret_statement (Cranelift.exec host) fuel s)
            (interpret_statement Nested.exec fuel s)
    statement-Follows (instr i) f m v h = exec-Follows i f m v h
    statement-Follows (loop body) f m v h =
        while_nonzero-Follows (HasSize size) fuel (Cranelift.interpret host fuel body)
          (Nested.interpret fuel body) (program-Keeps body f) (program-Follows body f) m v h

-- Take a program without jumps, whose amounts are bytes, whose offsets are positive and no more
-- than the largest slice, and whose moves to the left are no longer than the address of the
-- memory, which ends at or below `isize_max`. From a valid machine from which the program does
-- not fail, the Cranelift code has the outcome of the program, on a host whose default convention for
-- calls is win64, which that of the called functions is.
pub interpret-cranelift :
    (host : Host) (fuel : ℕ) (p : Peephole.Program) (m : Machine)
    → host.mem_start + length m.state.memory ≤ isize_max
    → host.default_call_conv ≡ win64
    → AllInstr (IsAddressable host.mem_start) p
    → IsValidMachine m
    → IsInside (Nested.interpret fuel p m)
    → Cranelift.interpret host fuel p m ≡ Nested.interpret fuel p m
interpret-cranelift host fuel p m room win f v h =
    program-Follows host (length m.state.memory) room win fuel p f m
      (record { valid = v; length_is = refl }) h
