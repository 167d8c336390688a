-- ===== src/Rts/Errors.antt =====
-- The errors with which a run can end: those of the pointer.
use bf_rs.Prelude.{
  ℕ, zero, suc, List, [], ◌∷◌, Bool, true, false, ltb, leb, length, ◌+◌, ◌%◌, if◌then◌else◌, ◌==◌,
}
use bf_rs.Common
use bf_rs.Common.{
  Error, pointer_underflow, pointer_overflow, unmatched_begin, unmatched_end, Result, ok, err,
  panic, Instruction, left, right, add, in_, out, jump_zero, jump_not_zero, set_zero,
  offset_add_right, offset_add_left, find_zero_right, find_zero_left,
}
use bf_rs.State
use bf_rs.State.{
  State, usize_mod, or_panic, index, modify, load, store, pos_offset, neg_offset, read, write,
  up_pos_offset, up_neg_offset,
}
use bf_rs.Machine.{
  Io, Machine, Outcome, done, failed, panicked, out_of_fuel, ◌>>=◌, with_result, on_state, branch,
  read_byte, write_byte, while_nonzero,
}
use bf_rs.Tree
use bf_rs.Tree.{Program, Statement, nil, ◌⨾◌, instr, loop, interpret_statement}
use bf_rs.Peephole
use bf_rs.Peephole.Interpreter.{move_right, move_left, exec, interpret}

abbrev pub IsRunError : Error → Type 0
IsRunError pointer_underflow = Unit
IsRunError pointer_overflow = Unit
IsRunError unmatched_begin = ⊥
IsRunError unmatched_end = ⊥

abbrev FailsWell {ℓ} : {A : Type ℓ} → Result A → Type 0
FailsWell (ok a) = Unit
FailsWell (err e) = IsRunError e
FailsWell panic = Unit

-- If the run ends with an error, it is one of the pointer.
abbrev pub HasRunErrors : Outcome → Type 0
HasRunErrors (failed e io) = IsRunError e
HasRunErrors _ = Unit

FailsWell-bind {ℓ κ} :
    {A : Type ℓ} {B : Type κ} (r : Result A) (f : A → Result B)
    → FailsWell r
    → ((a : A) → FailsWell (f a))
    → FailsWell (Common.◌>>=◌ r f)
FailsWell-bind (ok a) f h k = k a
FailsWell-bind (err e) f h k = h
FailsWell-bind panic f h k = tt

if-FailsWell {ℓ} :
    {A : Type ℓ} (b : Bool) (x y : Result A)
    → FailsWell x
    → FailsWell y
    → FailsWell (if b then x else y)
if-FailsWell true x y hx hy = hx
if-FailsWell false x y hx hy = hy

HasRunErrors-bind :
    (o : Outcome) (f : Machine → Outcome)
    → HasRunErrors o
    → ((m : Machine) → HasRunErrors (f m))
    → HasRunErrors (o >>= f)
HasRunErrors-bind (done m) f h k = k m
HasRunErrors-bind (failed e io) f h k = h
HasRunErrors-bind (panicked io) f h k = tt
HasRunErrors-bind out_of_fuel f h k = tt

with_result-HasRunErrors {ℓ} :
    {A : Type ℓ} (io : Io) (r : Result A) (f : A → Outcome)
    → FailsWell r
    → ((a : A) → HasRunErrors (f a))
    → HasRunErrors (with_result io r f)
with_result-HasRunErrors io (ok a) f h k = k a
with_result-HasRunErrors io (err e) f h k = h
with_result-HasRunErrors io panic f h k = tt

on_state-HasRunErrors :
    (op : State → Result State) (m : Machine)
    → ((s : State) → FailsWell (op s))
    → HasRunErrors (on_state op m)
on_state-HasRunErrors op m h = with_result-HasRunErrors m.io (op m.state) _ (h m.state) (λ s. tt)

index-FailsWell : (memory : List ℕ) (address : ℕ) → FailsWell (index memory address)
unfolding index
index-FailsWell [] address = tt
index-FailsWell (b ∷ memory) zero = tt
index-FailsWell (b ∷ memory) (suc address) = index-FailsWell memory address

load-FailsWell : (s : State) → FailsWell (load s)
unfolding load
load-FailsWell s = index-FailsWell s.memory s.pointer

modify-FailsWell : (f : ℕ → ℕ) (address : ℕ) (s : State) → FailsWell (modify f address s)
unfolding modify
modify-FailsWell f address s =
    FailsWell-bind (index s.memory address) _ (index-FailsWell s.memory address) (λ b. tt)

pos_offset-FailsWell : (n : ℕ) (s : State) → FailsWell (pos_offset n s)
unfolding pos_offset
pos_offset-FailsWell n s =
    if-FailsWell (ltb ((s.pointer + n) % usize_mod) (length s.memory)) _ _ tt tt

neg_offset-FailsWell : (n : ℕ) (s : State) → FailsWell (neg_offset n s)
unfolding neg_offset
neg_offset-FailsWell n s = if-FailsWell (leb n s.pointer) _ _ tt tt

right-FailsWell : (n : ℕ) (s : State) → FailsWell (State.right n s)
unfolding State.right
right-FailsWell n s = FailsWell-bind (pos_offset n s) _ (pos_offset-FailsWell n s) (λ p. tt)

left-FailsWell : (n : ℕ) (s : State) → FailsWell (State.left n s)
unfolding State.left
left-FailsWell n s = FailsWell-bind (neg_offset n s) _ (neg_offset-FailsWell n s) (λ p. tt)

move_right-FailsWell : (n value : ℕ) (s : State) → FailsWell (move_right n value s)
unfolding move_right store up_pos_offset
move_right-FailsWell n value s =
    FailsWell-bind (store 0 s) _ (modify-FailsWell (λ _. 0) s.pointer s) (λ s'.
      FailsWell-bind (pos_offset n s') _ (pos_offset-FailsWell n s') (λ p. modify-FailsWell _ p s'))

move_left-FailsWell : (n value : ℕ) (s : State) → FailsWell (move_left n value s)
unfolding move_left store up_neg_offset
move_left-FailsWell n value s =
    FailsWell-bind (store 0 s) _ (modify-FailsWell (λ _. 0) s.pointer s) (λ s'.
      FailsWell-bind (neg_offset n s') _ (neg_offset-FailsWell n s') (λ p. modify-FailsWell _ p s'))

if-HasRunErrors :
    (b : Bool) (x y : Outcome) → HasRunErrors x → HasRunErrors y → HasRunErrors (if b then x else y)
if-HasRunErrors true x y hx hy = hx
if-HasRunErrors false x y hx hy = hy

branch-HasRunErrors :
    (x y : Outcome) (b : ℕ) → HasRunErrors x → HasRunErrors y → HasRunErrors (branch x y b)
branch-HasRunErrors x y zero hx hy = hx
branch-HasRunErrors x y (suc b) hx hy = hy

pub while_nonzero-HasRunErrors :
    (fuel : ℕ) (body : Machine → Outcome)
    → ((m : Machine) → HasRunErrors (body m))
    → (m : Machine) → HasRunErrors (while_nonzero fuel body m)
unfolding while_nonzero
while_nonzero-HasRunErrors zero body h m = tt
while_nonzero-HasRunErrors (suc fuel) body h m =
    with_result-HasRunErrors m.io (load m.state) _ (load-FailsWell m.state) (λ b.
      branch-HasRunErrors (done m) _ b tt
        (HasRunErrors-bind (body m) _ (h m) (while_nonzero-HasRunErrors fuel body h)))

guarded-HasRunErrors :
    (move : ℕ → State → Result State) (m : Machine)
    → ((value : ℕ) (s : State) → FailsWell (move value s))
    → HasRunErrors (
        with_result m.io
          (load m.state)
          λ value. if value == 0 then done m else on_state (move value) m)
guarded-HasRunErrors move m h =
    with_result-HasRunErrors m.io (load m.state) _ (load-FailsWell m.state)
      (λ b. if-HasRunErrors (b == 0) (done m) _ tt (on_state-HasRunErrors (move b) m (h b)))

exec-HasRunErrors : (fuel : ℕ) (i : Instruction) (m : Machine) → HasRunErrors (exec fuel i m)
unfolding exec read_byte write_byte read write store State.up
exec-HasRunErrors fuel (left n) m = on_state-HasRunErrors (State.left n) m (left-FailsWell n)
exec-HasRunErrors fuel (right n) m = on_state-HasRunErrors (State.right n) m (right-FailsWell n)
exec-HasRunErrors fuel (add n) m =
    on_state-HasRunErrors (State.up n) m (λ s. modify-FailsWell _ s.pointer s)
exec-HasRunErrors fuel in_ m =
    with_result-HasRunErrors m.io (read m.io.input m.state) _
      (FailsWell-bind _ _ (modify-FailsWell _ m.state.pointer m.state) (λ s. tt)) (λ r. tt)
exec-HasRunErrors fuel out m =
    with_result-HasRunErrors m.io (write m.io.output m.state) _
      (FailsWell-bind (load m.state) _ (load-FailsWell m.state) (λ b. tt)) (λ r. tt)
exec-HasRunErrors fuel (jump_zero _) m = tt
exec-HasRunErrors fuel (jump_not_zero _) m = tt
exec-HasRunErrors fuel set_zero m =
    on_state-HasRunErrors (store 0) m (λ s. modify-FailsWell _ s.pointer s)
exec-HasRunErrors fuel (offset_add_right n) m =
    guarded-HasRunErrors (move_right n) m (move_right-FailsWell n)
exec-HasRunErrors fuel (offset_add_left n) m =
    guarded-HasRunErrors (move_left n) m (move_left-FailsWell n)
exec-HasRunErrors fuel (find_zero_right n) m =
    while_nonzero-HasRunErrors fuel (on_state (State.right n))
      (λ m'. on_state-HasRunErrors (State.right n) m' (right-FailsWell n)) m
exec-HasRunErrors fuel (find_zero_left n) m =
    while_nonzero-HasRunErrors fuel (on_state (State.left n))
      (λ m'. on_state-HasRunErrors (State.left n) m' (left-FailsWell n)) m

module _ (fuel : ℕ) where
  mutual
    unfolding Tree.interpret

    program-HasRunErrors :
        (p : Peephole.Program) (m : Machine) → HasRunErrors (Tree.interpret exec fuel p m)
    program-HasRunErrors nil m = tt
    program-HasRunErrors (s ⨾ p) m =
        HasRunErrors-bind (interpret_statement exec fuel s m) _ (statement-HasRunErrors s m)
          (program-HasRunErrors p)

    statement-HasRunErrors :
        (s : Peephole.Statement) (m : Machine) → HasRunErrors (interpret_statement exec fuel s m)
    statement-HasRunErrors (instr i) m = exec-HasRunErrors fuel i m
    statement-HasRunErrors (loop body) m =
        while_nonzero-HasRunErrors fuel (Tree.interpret exec fuel body) (program-HasRunErrors body)
          m

  -- A run of an optimized program never ends with an error of syntax.
  pub interpret-HasRunErrors :
      (p : Peephole.Program) (m : Machine) → HasRunErrors (interpret fuel p m)
  unfolding interpret
  interpret-HasRunErrors = program-HasRunErrors
