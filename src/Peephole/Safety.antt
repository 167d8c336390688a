-- ===== src/Peephole/Safety.antt =====
-- src/peephole/interpreter.rs: the programs that the optimizer makes, and panics of them.
use bf_rs.Prelude.{ℕ, ◌≤◌, ◌<◌, Bool, true, false, ◌==◌, if◌then◌else◌, arith}
use bf_rs.Common
use bf_rs.Common.{
  Instruction, left, right, add, in_, out, jump_zero, jump_not_zero, set_zero, offset_add_right,
  offset_add_left, find_zero_right, find_zero_left, Result, ok, err, panic, pointer_overflow,
}
use bf_rs.State
use bf_rs.State.{State, load, store, up_pos_offset, up_neg_offset}
use bf_rs.State.Valid.{
  IsByte, IsValid, isize_max, Returns, load_valid, store-Returns, up-Returns, left-Returns,
  right-Returns, up_pos_offset-Returns, up_neg_offset-Returns,
}
use bf_rs.Machine.{Machine, Outcome, done, on_state, with_result}
use bf_rs.Machine.Laws.{
  Post, Preserves, IsValidMachine, on_state-Preserves, while_nonzero-Preserves, read_byte-Preserves,
  write_byte-Preserves,
}
use bf_rs.Tree
use bf_rs.Tree.{AllInstr}
use bf_rs.Peephole.{Program}
use bf_rs.Peephole.Interpreter.{move_right, move_left, exec, interpret}

abbrev pub IsOffset : ℕ → ℕ → Type 0
IsOffset bound n = (0 < n) × (n ≤ bound)

-- What the optimizer issues: no jumps, bytes to add, and moves that lead away, by no more than a bound.
abbrev pub IsFineUpTo : ℕ → Instruction → Type 0
IsFineUpTo bound (left n) = IsOffset bound n
IsFineUpTo bound (right n) = IsOffset bound n
IsFineUpTo bound (add n) = IsByte n
IsFineUpTo bound in_ = Unit
IsFineUpTo bound out = Unit
IsFineUpTo bound (jump_zero _) = ⊥
IsFineUpTo bound (jump_not_zero _) = ⊥
IsFineUpTo bound set_zero = Unit
IsFineUpTo bound (offset_add_right n) = IsOffset bound n
IsFineUpTo bound (offset_add_left n) = IsOffset bound n
IsFineUpTo bound (find_zero_right n) = IsOffset bound n
IsFineUpTo bound (find_zero_left n) = IsOffset bound n

abbrev pub IsFine : Instruction → Type 0
IsFine i = IsFineUpTo isize_max i

pub widen : (bound : ℕ) (i : Instruction) → bound ≤ isize_max → IsFineUpTo bound i → IsFine i
widen bound (left n) h f = (f.0, omega (arith, f.1))
widen bound (right n) h f = (f.0, omega (arith, f.1))
widen bound (add n) h f = f
widen bound in_ h f = f
widen bound out h f = f
widen bound (jump_zero _) h f = f
widen bound (jump_not_zero _) h f = f
widen bound set_zero h f = f
widen bound (offset_add_right n) h f = (f.0, omega (arith, f.1))
widen bound (offset_add_left n) h f = (f.0, omega (arith, f.1))
widen bound (find_zero_right n) h f = (f.0, omega (arith, f.1))
widen bound (find_zero_left n) h f = (f.0, omega (arith, f.1))

Returns-bind :
    {P : State → Type 0} (Q : State → Type 0) (r : Result State) (f : State → Result State)
    → Returns P r
    → ((s : State) → P s → Returns Q (f s))
    → Returns Q (Common.◌>>=◌ r f)
Returns-bind Q (ok s) f h k = k s h
Returns-bind Q (err e) f h k = tt
Returns-bind Q panic f h k = absurd h

module _ (offset value : ℕ) (s : State) (v : IsValid s) where
  pub move_right-Returns : Returns IsValid (move_right offset value s)
  unfolding move_right
  move_right-Returns =
      Returns-bind IsValid (store 0 s) _ (store-Returns s v 0 (omega arith))
        (λ s' v'. up_pos_offset-Returns s' v' offset value)

  pub move_left-Returns : Returns IsValid (move_left offset value s)
  unfolding move_left
  move_left-Returns =
      Returns-bind IsValid (store 0 s) _ (store-Returns s v 0 (omega arith))
        (λ s' v'. up_neg_offset-Returns s' v' offset value)

if-Post :
    (P : Machine → Type 0) (b : Bool) (x y : Outcome)
    → Post P x
    → Post P y
    → Post P (if b then x else y)
if-Post P true x y hx hy = hx
if-Post P false x y hx hy = hy

guarded-Preserves :
    (move : ℕ → State → Result State) (m : Machine)
    → IsValidMachine m
    → ((value : ℕ) → Returns IsValid (move value m.state))
    → Post IsValidMachine (
        with_result m.io
          (load m.state)
          λ value. if value == 0 then done m else on_state (move value) m)
guarded-Preserves move m v h =
    let (b, _, e, _) = load_valid m.state v.valid in
    rw e (
      if-Post IsValidMachine (b == 0) (done m) (on_state (move b) m) v
        (on_state-Preserves (move b) m v (h b)))

pub exec-Preserves : (fuel : ℕ) (i : Instruction) → IsFine i → Preserves (exec fuel i)
unfolding exec
exec-Preserves fuel (left n) f m v =
    on_state-Preserves (State.left n) m v (left-Returns m.state v.valid n)
exec-Preserves fuel (right n) f m v =
    on_state-Preserves (State.right n) m v (right-Returns m.state v.valid n)
exec-Preserves fuel (add n) f m v =
    on_state-Preserves (State.up n) m v (up-Returns m.state v.valid n)
exec-Preserves fuel in_ f m v = read_byte-Preserves m v
exec-Preserves fuel out f m v = write_byte-Preserves m v
exec-Preserves fuel (jump_zero _) f m v = absurd f
exec-Preserves fuel (jump_not_zero _) f m v = absurd f
exec-Preserves fuel set_zero f m v =
    on_state-Preserves (store 0) m v (store-Returns m.state v.valid 0 (omega arith))
exec-Preserves fuel (offset_add_right n) f m v =
    guarded-Preserves (move_right n) m v (λ value. move_right-Returns n value m.state v.valid)
exec-Preserves fuel (offset_add_left n) f m v =
    guarded-Preserves (move_left n) m v (λ value. move_left-Returns n value m.state v.valid)
exec-Preserves fuel (find_zero_right n) f m v =
    while_nonzero-Preserves fuel (on_state (State.right n))
      (λ m' v'. on_state-Preserves (State.right n) m' v' (right-Returns m'.state v'.valid n)) m v
exec-Preserves fuel (find_zero_left n) f m v =
    while_nonzero-Preserves fuel (on_state (State.left n))
      (λ m' v'. on_state-Preserves (State.left n) m' v' (left-Returns m'.state v'.valid n)) m v

-- Optimized programs keep machines valid, and panic nowhere.
pub interpret-Preserves :
    (fuel : ℕ) (p : Program) → AllInstr IsFine p → Preserves (interpret fuel p)
unfolding interpret
interpret-Preserves fuel = Tree.Laws.interpret-Preserves exec fuel IsFine (exec-Preserves fuel)

-- From a valid machine a program without jumps, whose amounts are bytes and whose offsets are
-- positive and no more than the largest slice, never panics; where it ends, the machine is valid.
pub interpret_fine-IsValidMachine :
    (fuel : ℕ) (p : Program) (m : Machine)
    → AllInstr IsFine p
    → IsValidMachine m
    → Post IsValidMachine (interpret fuel p m)
interpret_fine-IsValidMachine fuel p m f v = interpret-Preserves fuel p f m v
