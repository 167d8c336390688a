-- ===== src/Jit/Moves/Instructions.antt =====
-- src/peephole/interpreter.rs: where each instruction leaves the pointer.
use bf_rs.Prelude.{
  ℕ, zero, suc, ◌+◌, ◌-◌, ◌≤◌, ◌≡◌, refl, ◌∙◌, Bool, true, false, length-set, ◌==◌, if◌then◌else◌,
  arith,
}
use bf_rs.Common.{
  Instruction, left, right, add, in_, out, jump_zero, jump_not_zero, set_zero, offset_add_right,
  offset_add_left, find_zero_right, find_zero_left, Result, ok, err, panic,
}
use bf_rs.State
use bf_rs.State.{
  State, usize_mod, index, load, modify, store, read, write, up_pos_offset, up_neg_offset,
  pos_offset, neg_offset,
}
use bf_rs.State.Valid.{
  IsValid, Returns, load_valid, isize_max, right-Returns, left-Returns, up-Returns, store-Returns,
}
use bf_rs.Machine.{
  Machine, Outcome, done, failed, panicked, out_of_fuel, with_result, on_state, while_nonzero,
  read_byte, write_byte,
}
use bf_rs.Machine.Laws.{
  IsValidMachine, Post, Post-bind, load-elim, on_state-Preserves, read_byte-Preserves,
  write_byte-Preserves,
}
use bf_rs.Peephole.Interpreter.{exec, move_right, move_left}
use bf_rs.Peephole.Safety.{IsFine, exec-Preserves}
use bf_rs.Jit.Moves.{
  IfOk, IfOk-map, Shifts, Stays, store-Stays, up-Stays, move_right-Stays, move_left-Stays,
  right-Shifts, left-Shifts,
}

-- The machine is valid still, and its state has shifted so.
abbrev pub At : (ℕ → ℕ → Type 0) → Machine → Machine → Type 0
At R m m' = IsValidMachine m' × Shifts R m.state m'.state

pub At-map :
    (R Q : ℕ → ℕ → Type 0) (m : Machine) (o : Outcome)
    → ((p' : ℕ) → p' ≤ isize_max → R m.state.pointer p' → Q m.state.pointer p')
    → Post (At R m) o
    → Post (At Q m) o
At-map R Q m (done m') k (v, (l, r)) =
    (v, (l, k m'.state.pointer (omega (arith, v.valid.inside, v.valid.allocated)) r))
At-map R Q m (failed e io) k h = h
At-map R Q m (panicked io) k h = h
At-map R Q m out_of_fuel k h = h

result-At :
    (R : ℕ → ℕ → Type 0) (m : Machine) (r : Result State)
    → Post IsValidMachine (with_result m.io r λ s. done (record { state = s; io = m.io }))
    → IfOk (Shifts R m.state) r
    → Post (At R m) (with_result m.io r λ s. done (record { state = s; io = m.io }))
result-At R m (ok s) v h = (v, h)
result-At R m (err e) v h = v
result-At R m panic v h = v

pub on_state-At :
    (R : ℕ → ℕ → Type 0) (op : State → Result State) (m : Machine)
    → IsValidMachine m
    → Returns IsValid (op m.state)
    → IfOk (Shifts R m.state) (op m.state)
    → Post (At R m) (on_state op m)
on_state-At R op m v w h = result-At R m (op m.state) (on_state-Preserves op m v w) h

pub Post-map :
    {P Q : Machine → Type 0} (k : (m : Machine) → P m → Q m) (o : Outcome) → Post P o → Post Q o
Post-map k (done m) h = k m h
Post-map k (failed e io) h = h
Post-map k (panicked io) h = h
Post-map k out_of_fuel h = h

-- A loop keeps what its body keeps.
pub while_nonzero-Post :
    (P : Machine → Type 0)
    → ((m : Machine) → P m → IsValidMachine m)
    → (fuel : ℕ) (body : Machine → Outcome) → ((m : Machine) → P m → Post P (body m))
    → (m : Machine) → P m
    → Post P (while_nonzero fuel body m)
unfolding while_nonzero
while_nonzero-Post P valid zero body h m p = tt
while_nonzero-Post P valid (suc fuel) body h m p =
    load-elim (Post P) m _ _ (valid m p) p
      (Post-bind P (body m) _ (h m p) (while_nonzero-Post P valid fuel body h))

-- Where an instruction leaves the pointer.
abbrev pub Goes : Instruction → ℕ → ℕ → Type 0
Goes (right n) p p' = p' ≡ p + n
Goes (left n) p p' = (n ≤ p) × (p' ≡ p - n)
Goes (find_zero_right _) p p' = p ≤ p'
Goes (find_zero_left _) p p' = p' ≤ p
Goes _ p p' = p' ≡ p

-- A loop that moves the pointer one way only.
loop-At :
    (R : ℕ → ℕ → Type 0) (fuel : ℕ) (op : State → Result State) (m : Machine)
    → IsValidMachine m
    → R m.state.pointer m.state.pointer
    → ((s : State)
        → IsValid s
        → R m.state.pointer s.pointer
        → Returns IsValid (op s) × IfOk (Shifts (λ _ p'. R m.state.pointer p') s) (op s))
    → Post (At R m) (while_nonzero fuel (on_state op) m)
loop-At R fuel op m v r k =
    while_nonzero-Post (At R m) (λ m' a. a.0) fuel (on_state op)
      (λ m' a.
        let (w, h) = k m'.state a.0.valid a.1.1 in
        Post-map (λ m'' b. (b.0, (b.1.0 ∙ a.1.0, b.1.1))) (on_state op m')
          (on_state-At (λ _ p'. R m.state.pointer p') op m' a.0 w h))
      m (v, (refl, r))

if-At :
    (m : Machine) (b : Bool) (r : Result State)
    → Post IsValidMachine
        (if b then done m else with_result m.io r λ s. done (record { state = s; io = m.io }))
    → IsValidMachine m
    → IfOk (Shifts Stays m.state) r
    → Post
        (At Stays m)
        (if b then done m else with_result m.io r λ s. done (record { state = s; io = m.io }))
if-At m true r h v k = (v, (refl, refl))
if-At m false r h v k = result-At Stays m r h k

-- `P` holds of the machine at the end of a run that ends normally.
abbrev IfDone : (Machine → Type 0) → Outcome → Type 0
IfDone P (done m) = P m
IfDone P _ = Unit

Post-and : (P Q : Machine → Type 0) (o : Outcome) → Post P o → IfDone Q o → Post (λ m. P m × Q m) o
Post-and P Q (done m) h k = (h, k)
Post-and P Q (failed e io) h k = tt
Post-and P Q (panicked io) h k = h
Post-and P Q out_of_fuel h k = tt

read_byte-Stays : (m : Machine) → IsValidMachine m → Post (At Stays m) (read_byte m)
unfolding read_byte read State.read_exact store modify
read_byte-Stays m v =
    let (b, e, _, _) = load_valid m.state v.valid in
    Post-and IsValidMachine (λ m'. Shifts Stays m.state m'.state) (read_byte m)
      (read_byte-Preserves m v)
      (rw e (length-set m.state.memory m.state.pointer (State.read_exact m.io.input).0, refl))

write_byte-Stays : (m : Machine) → IsValidMachine m → Post (At Stays m) (write_byte m)
unfolding write_byte write load
write_byte-Stays m v =
    let (b, e, _, _) = load_valid m.state v.valid in
    Post-and IsValidMachine (λ m'. Shifts Stays m.state m'.state) (write_byte m)
      (write_byte-Preserves m v) (rw e (refl, refl))

guarded-At :
    (m : Machine) (move : ℕ → State → Result State) (r : Result ℕ)
    → Post IsValidMachine
        (with_result m.io r λ value. if value == 0 then done m else on_state (move value) m)
    → IsValidMachine m
    → ((value : ℕ) → IfOk (Shifts Stays m.state) (move value m.state))
    → Post
        (At Stays m)
        (with_result m.io r λ value. if value == 0 then done m else on_state (move value) m)
guarded-At m move (ok b) h v k = if-At m (b == 0) (move b m.state) h v (k b)
guarded-At m move (err e) h v k = tt
guarded-At m move panic h v k = h

-- Every instruction that is fine goes where `Goes` says.
pub exec-Goes :
    (fuel : ℕ) (i : Instruction) (m : Machine)
    → IsFine i
    → IsValidMachine m
    → Post (At (Goes i) m) (exec fuel i m)
unfolding exec
exec-Goes fuel (right n) m f v =
    on_state-At (Goes (right n)) (State.right n) m v (right-Returns m.state v.valid n)
      (right-Shifts n m.state v.valid f.1)
exec-Goes fuel (left n) m f v =
    on_state-At (Goes (left n)) (State.left n) m v (left-Returns m.state v.valid n)
      (left-Shifts n m.state v.valid)
exec-Goes fuel (add n) m f v =
    on_state-At Stays (State.up n) m v (up-Returns m.state v.valid n) (up-Stays n m.state)
exec-Goes fuel in_ m f v = read_byte-Stays m v
exec-Goes fuel out m f v = write_byte-Stays m v
exec-Goes fuel (jump_zero _) m f v = absurd f
exec-Goes fuel (jump_not_zero _) m f v = absurd f
exec-Goes fuel set_zero m f v =
    on_state-At Stays (store 0) m v (store-Returns m.state v.valid 0 (omega arith))
      (store-Stays 0 m.state)
exec-Goes fuel (offset_add_right n) m f v =
    guarded-At m (move_right n) (load m.state) (exec-Preserves fuel (offset_add_right n) f m v) v
      (λ value. move_right-Stays n value m.state)
exec-Goes fuel (offset_add_left n) m f v =
    guarded-At m (move_left n) (load m.state) (exec-Preserves fuel (offset_add_left n) f m v) v
      (λ value. move_left-Stays n value m.state)
exec-Goes fuel (find_zero_right n) m f v =
    loop-At (λ p p'. p ≤ p') fuel (State.right n) m v (omega arith)
      (λ s w r. (
        right-Returns s w n,
        IfOk-map (λ s' h. (h.0, omega (arith, h.1))) (State.right n s) (right-Shifts n s w f.1),
      ))
exec-Goes fuel (find_zero_left n) m f v =
    loop-At (λ p p'. p' ≤ p) fuel (State.left n) m v (omega arith)
      (λ s w r. (
        left-Returns s w n,
        IfOk-map (λ s' h. (h.0, omega (arith, h.1.1))) (State.left n s) (left-Shifts n s w),
      ))
