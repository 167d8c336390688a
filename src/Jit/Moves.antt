-- ===== src/Jit/Moves.antt =====
-- src/state.rs: where the operations leave the pointer.
pub mod Instructions
use bf_rs.Prelude.{
  ℕ, zero, suc, ◌+◌, ◌-◌, ◌≤◌, ◌≡◌, refl, ◌∙◌, Bool, true, false, length, length-set, inl, inr,
  ◌==◌, if◌then◌else◌, arith,
}
use bf_rs.Common
use bf_rs.Common.{
  Instruction, left, right, add, in_, out, jump_zero, jump_not_zero, set_zero, offset_add_right,
  offset_add_left, find_zero_right, find_zero_left, Result, ok, err, panic,
}
use bf_rs.State
use bf_rs.State.{
  State, usize_mod, index, load, modify, store, read, write, up_pos_offset, up_neg_offset,
  pos_offset, neg_offset,
}
use bf_rs.State.Valid.{
  IsValid, Returns, load_valid, isize_max, pos_offset-cases, neg_offset-cases, right-Returns,
  left-Returns, up-Returns, store-Returns,
}
use bf_rs.Machine.{
  Machine, Outcome, done, failed, panicked, out_of_fuel, with_result, on_state, while_nonzero,
  read_byte, write_byte,
}
use bf_rs.Machine.Laws.{
  IsValidMachine, Post, Post-bind, load-elim, on_state-Preserves, read_byte-Preserves,
  write_byte-Preserves,
}
use bf_rs.Peephole.Interpreter.{exec, move_right, move_left}
use bf_rs.Peephole.Safety.{IsFine, exec-Preserves}

-- `P` holds of a value that is returned.
abbrev pub IfOk {ℓ} : {A : Type ℓ} → (A → Type 0) → Result A → Type 0
IfOk P (ok a) = P a
IfOk P (err e) = Unit
IfOk P panic = Unit

IfOk-bind {ℓ κ} :
    {A : Type ℓ} {B : Type κ} (P : A → Type 0) (Q : B → Type 0) (r : Result A) (f : A → Result B)
    → IfOk P r
    → ((a : A) → P a → IfOk Q (f a))
    → IfOk Q (Common.◌>>=◌ r f)
IfOk-bind P Q (ok a) f h k = k a h
IfOk-bind P Q (err e) f h k = tt
IfOk-bind P Q panic f h k = tt

IfOk-any {ℓ} : {A : Type ℓ} (r : Result A) → IfOk (λ _. Unit) r
IfOk-any (ok a) = tt
IfOk-any (err e) = tt
IfOk-any panic = tt

pub IfOk-map {ℓ} :
    {A : Type ℓ} {P Q : A → Type 0} (k : (a : A) → P a → Q a) (r : Result A) → IfOk P r → IfOk Q r
IfOk-map k (ok a) h = k a h
IfOk-map k (err e) h = h
IfOk-map k panic h = h

-- The memory has kept its size, and the pointers before and after are related.
abbrev pub Shifts : (ℕ → ℕ → Type 0) → State → State → Type 0
Shifts R s s' = (length s'.memory ≡ length s.memory) × R s.pointer s'.pointer

abbrev pub Stays : ℕ → ℕ → Type 0
Stays p p' = p' ≡ p

modify-Stays : (f : ℕ → ℕ) (address : ℕ) (s : State) → IfOk (Shifts Stays s) (modify f address s)
unfolding modify
modify-Stays f address s =
    IfOk-bind (λ _. Unit) (Shifts Stays s) (index s.memory address) _
      (IfOk-any (index s.memory address)) (λ b _. (length-set s.memory address (f b), refl))

pub store-Stays : (value : ℕ) (s : State) → IfOk (Shifts Stays s) (store value s)
unfolding store
store-Stays value s = modify-Stays (λ _. value) s.pointer s

pub up-Stays : (n : ℕ) (s : State) → IfOk (Shifts Stays s) (State.up n s)
unfolding State.up
up-Stays n s = modify-Stays (State.wrapping_add n) s.pointer s

pub move_right-Stays : (n value : ℕ) (s : State) → IfOk (Shifts Stays s) (move_right n value s)
unfolding move_right up_pos_offset
move_right-Stays n value s =
    IfOk-bind (Shifts Stays s) (Shifts Stays s) (store 0 s) _ (store-Stays 0 s) (λ s' h.
      IfOk-bind (λ _. Unit) (Shifts Stays s) (pos_offset n s') _ (IfOk-any (pos_offset n s'))
        (λ a _.
          IfOk-map (λ s'' g. (g.0 ∙ h.0, g.1 ∙ h.1)) (modify (State.wrapping_add value) a s')
            (modify-Stays (State.wrapping_add value) a s')))

pub move_left-Stays : (n value : ℕ) (s : State) → IfOk (Shifts Stays s) (move_left n value s)
unfolding move_left up_neg_offset
move_left-Stays n value s =
    IfOk-bind (Shifts Stays s) (Shifts Stays s) (store 0 s) _ (store-Stays 0 s) (λ s' h.
      IfOk-bind (λ _. Unit) (Shifts Stays s) (neg_offset n s') _ (IfOk-any (neg_offset n s'))
        (λ a _.
          IfOk-map (λ s'' g. (g.0 ∙ h.0, g.1 ∙ h.1)) (modify (State.wrapping_add value) a s')
            (modify-Stays (State.wrapping_add value) a s')))

pub right-Shifts :
    (n : ℕ) (s : State)
    → IsValid s
    → n ≤ isize_max
    → IfOk (Shifts (λ p p'. p' ≡ p + n) s) (State.right n s)
unfolding State.right
right-Shifts n s v h = elim (pos_offset-cases s v n) [
  | inl (l, e) ↦ rw (State.right, e) (refl, omega (arith, v.inside, v.allocated))
  | inr (l, e) ↦ rw (State.right, e) tt
]

pub left-Shifts :
    (n : ℕ) (s : State)
    → IsValid s
    → IfOk (Shifts (λ p p'. (n ≤ p) × (p' ≡ p - n)) s) (State.left n s)
unfolding State.left
left-Shifts n s v = elim (neg_offset-cases s v n) [
  | inl (l, e) ↦ rw (State.left, e) (refl, (l, refl))
  | inr (l, e) ↦ rw (State.left, e) tt
]
