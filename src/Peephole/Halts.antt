-- ===== src/Peephole/Halts.antt =====
-- src/peephole/interpreter.rs: searches for a zero end, and so do programs in which no loop is left.
use bf_rs.Prelude.{
  ℕ, zero, suc, ◌+◌, ◌≤◌, ◌<◌, refl, ◌∙◌, Bool, true, false, length, ◌==◌, if◌then◌else◌, arith,
}
use bf_rs.Common.{
  Instruction, left, right, add, in_, out, jump_zero, jump_not_zero, set_zero, offset_add_right,
  offset_add_left, find_zero_right, find_zero_left, Result, ok, err, panic,
}
use bf_rs.State
use bf_rs.State.{State, load, store, read, write}
use bf_rs.State.Valid.{right-Returns, left-Returns}
use bf_rs.Machine.{
  Io, Machine, Outcome, done, failed, panicked, out_of_fuel, ◌>>=◌, with_result, on_state,
  while_nonzero, read_byte, write_byte,
}
use bf_rs.Machine.Laws.{IsValidMachine, Post, load-elim}
use bf_rs.Tree
use bf_rs.Tree.{nil, ◌⨾◌, instr, loop, AllInstr, interpret_statement}
use bf_rs.Peephole.{Program, Statement}
use bf_rs.Peephole.Interpreter.{move_right, move_left, exec, interpret}
use bf_rs.Peephole.Safety.{IsFine}
use bf_rs.Peephole.Size.{HasSize, exec-HasSize}
use bf_rs.Jit.Moves.{right-Shifts, left-Shifts}
use bf_rs.Jit.Moves.Instructions.{At, Goes, on_state-At}

-- The run does not want for fuel.
abbrev pub Ends : Outcome → Type 0
Ends out_of_fuel = ⊥
Ends _ = Unit

Ends-bind :
    (P : Machine → Type 0) (o : Outcome) (f : Machine → Outcome)
    → Ends o
    → Post P o
    → ((m : Machine) → P m → Ends (f m))
    → Ends (o >>= f)
Ends-bind P (done m) f h p k = k m p
Ends-bind P (failed e io) f h p k = tt
Ends-bind P (panicked io) f h p k = tt
Ends-bind P out_of_fuel f h p k = h

with_result-Ends {ℓ} :
    {A : Type ℓ} (io : Io) (r : Result A) (f : A → Outcome)
    → ((a : A) → Ends (f a))
    → Ends (with_result io r f)
with_result-Ends io (ok a) f k = k a
with_result-Ends io (err e) f k = tt
with_result-Ends io panic f k = tt

on_state-Ends : (op : State → Result State) (m : Machine) → Ends (on_state op m)
on_state-Ends op m = with_result-Ends m.io (op m.state) _ (λ s. tt)

-- Each round takes the pointer nearer to an end of the memory.
seek_right-Ends :
    (fuel n size : ℕ) (m : Machine)
    → IsFine (right n)
    → HasSize size m
    → size ≤ fuel + m.state.pointer
    → Ends (while_nonzero fuel (on_state (State.right n)) m)
unfolding while_nonzero
seek_right-Ends zero n size m f h l = absurd (omega (arith, h.valid.valid.inside, h.length_is))
seek_right-Ends (suc fuel) n size m f h l = load-elim Ends m _ _ h.valid tt (
    Ends-bind (At (Goes (right n)) m) (on_state (State.right n) m) _
      (on_state-Ends (State.right n) m)
      (on_state-At (Goes (right n)) (State.right n) m h.valid
        (right-Returns m.state h.valid.valid n) (right-Shifts n m.state h.valid.valid f.1))
      (λ m' g.
        seek_right-Ends fuel n size m' f (record { valid = g.0; length_is = g.1.0 ∙ h.length_is })
          (omega (arith, g.1.1, f.0))))

seek_left-Ends :
    (fuel n size : ℕ) (m : Machine)
    → IsFine (left n)
    → HasSize size m
    → m.state.pointer < fuel
    → Ends (while_nonzero fuel (on_state (State.left n)) m)
unfolding while_nonzero
seek_left-Ends zero n size m f h l = absurd (omega (arith, l))
seek_left-Ends (suc fuel) n size m f h l = load-elim Ends m _ _ h.valid tt (
    Ends-bind (At (Goes (left n)) m) (on_state (State.left n) m) _ (on_state-Ends (State.left n) m)
      (on_state-At (Goes (left n)) (State.left n) m h.valid (left-Returns m.state h.valid.valid n)
        (left-Shifts n m.state h.valid.valid))
      (λ m' g.
        seek_left-Ends fuel n size m' f (record { valid = g.0; length_is = g.1.0 ∙ h.length_is })
          (omega (arith, g.1.1.0, g.1.1.1, f.0))))

if-Ends : (m : Machine) (c : Bool) (y : Outcome) → Ends y → Ends (if c then done m else y)
if-Ends m true y h = tt
if-Ends m false y h = h

exec-Ends :
    (fuel size : ℕ) (i : Instruction) (m : Machine)
    → IsFine i
    → HasSize size m
    → size ≤ fuel
    → Ends (exec fuel i m)
unfolding exec read_byte write_byte
exec-Ends fuel size (right n) m f h l = on_state-Ends (State.right n) m
exec-Ends fuel size (left n) m f h l = on_state-Ends (State.left n) m
exec-Ends fuel size (add n) m f h l = on_state-Ends (State.up n) m
exec-Ends fuel size in_ m f h l = with_result-Ends m.io (read m.io.input m.state) _ (λ r. tt)
exec-Ends fuel size out m f h l = with_result-Ends m.io (write m.io.output m.state) _ (λ r. tt)
exec-Ends fuel size set_zero m f h l = on_state-Ends (store 0) m
exec-Ends fuel size (offset_add_right n) m f h l =
    with_result-Ends m.io (load m.state) _
      (λ b. if-Ends m (b == 0) (on_state (move_right n b) m) (on_state-Ends (move_right n b) m))
exec-Ends fuel size (offset_add_left n) m f h l =
    with_result-Ends m.io (load m.state) _
      (λ b. if-Ends m (b == 0) (on_state (move_left n b) m) (on_state-Ends (move_left n b) m))
exec-Ends fuel size (find_zero_right n) m f h l = seek_right-Ends fuel n size m f h (omega arith)
exec-Ends fuel size (find_zero_left n) m f h l =
    seek_left-Ends fuel n size m f h (omega (arith, h.valid.valid.inside, h.length_is))
exec-Ends fuel size (jump_zero n) m f h l = absurd f
exec-Ends fuel size (jump_not_zero n) m f h l = absurd f

abbrev IsInstr : Statement → Type 0
IsInstr (instr i) = Unit
IsInstr (loop body) = ⊥

-- Every loop of the source has become an instruction.
abbrev pub IsLoopless : Program → Type 0
IsLoopless nil = Unit
IsLoopless (s ⨾ p) = IsInstr s × IsLoopless p

program-Ends :
    (fuel size : ℕ) (p : Program) (m : Machine)
    → IsLoopless p
    → AllInstr IsFine p
    → HasSize size m
    → size ≤ fuel
    → Ends (interpret fuel p m)
unfolding interpret Tree.interpret
program-Ends fuel size nil m n f h l = tt
program-Ends fuel size (instr i ⨾ p) m n f h l =
    Ends-bind (HasSize size) (exec fuel i m) _ (exec-Ends fuel size i m f.0 h l)
      (exec-HasSize size fuel i f.0 m h) (λ m' h'. program-Ends fuel size p m' n.1 f.1 h' l)
program-Ends fuel size (loop body ⨾ p) m n f h l = absurd n.0

-- An optimized program in which no loop is left, without jumps, whose amounts are bytes and whose
-- offsets are positive and no more than the largest slice, ends from every valid machine: as many
-- rounds for each search as the memory has cells are enough.
pub interpret-Ends :
    (fuel : ℕ) (p : Program) (m : Machine)
    → IsLoopless p
    → AllInstr IsFine p
    → IsValidMachine m
    → length m.state.memory ≤ fuel
    → Ends (interpret fuel p m)
interpret-Ends fuel p m n f v l =
    program-Ends fuel (length m.state.memory) p m n f (record { valid = v; length_is = refl }) l
