-- ===== src/Cranelift/Silent.antt =====
-- src/cranelift/compiler.rs: the instructions whose code has no checks, where a run leaves the memory.
use bf_rs.Prelude.{
  ℕ, suc, ◌≡◌, ◌≤◌, ◌-◌, ◌⊎◌, inl, inr, refl, sym, ap, ◌∙◌, length, Bool-cases, length-set, arith,
  ◌==◌, if◌then◌else◌,
}
use bf_rs.Common.{
  Error, Instruction, left, right, add, in_, out, jump_zero, jump_not_zero, set_zero,
  offset_add_right, offset_add_left, find_zero_right, find_zero_left, Result, err, panic,
  pointer_overflow, pointer_underflow,
}
use bf_rs.State
use bf_rs.State.Valid.{IsValid, isize_max, load_valid, pos_offset-cases, neg_offset-cases}
use bf_rs.State.{State, index, load, modify, store, wrapping_add, up_pos_offset, up_neg_offset}
use bf_rs.Machine.{Io, Machine, Outcome, done, failed, panicked, with_result, on_state}
use bf_rs.Machine.Laws.{IsValidMachine}
use bf_rs.State.Clear.{cleared, store-cleared, cleared-IsValid}
use bf_rs.Peephole.Interpreter.{move_right, move_left}
use bf_rs.Peephole.Safety.{IsFine}
use bf_rs.Peephole.Interpreter as Nested
use bf_rs.Cranelift
use bf_rs.Cranelift.{Host, forth, back, skip_right, skip_left, add_right, add_left}
use bf_rs.Cranelift.Outside.{
  Succeeds, modify-Succeeds, with_result-IsInside, index-outside, not_failed, io_of, resume,
  right-Step, left-Step, search-outside,
}

-- A transfer: it is not refused, or it is refused by the check, and without that meets no cell.
abbrev Transfer : Result State → Result State → Type 0
Transfer checked unchecked =
    Succeeds checked ⊎ ((e : Error) × (checked ≡ err e) × (unchecked ≡ panic))

modify-outside :
    (f : ℕ → ℕ) (address : ℕ) (s : State) → length s.memory ≤ address → modify f address s ≡ panic
unfolding modify
modify-outside f address s h = rw (index-outside s.memory address h) refl

module _ (n b : ℕ) (h : n ≤ isize_max) (s : State) (v : IsValid s) where
  right-Transfer : Transfer (move_right n b s) (add_right n b s)
  unfolding move_right up_pos_offset add_right
  right-Transfer =
      let same : length (cleared s).memory ≡ length s.memory = length-set s.memory s.pointer 0 in
      let to = forth s.pointer n in
      elim (pos_offset-cases (cleared s) (cleared-IsValid s v) n) [
        | inl (l, e) ↦
            inl (rw (store-cleared s v, e) (modify-Succeeds (wrapping_add b) to (cleared s)))
        | inr (l, e) ↦ inr (
          pointer_overflow,
          rw (store-cleared s v, e) refl,
          rw (modify-outside (wrapping_add b) to s (omega arith)) refl,
        )
      ]

  left-Transfer : Transfer (move_left n b s) (add_left n b s)
  unfolding move_left up_neg_offset add_left
  left-Transfer =
      let to = back s.pointer n in
      elim (neg_offset-cases (cleared s) (cleared-IsValid s v) n) [
        | inl (l, e) ↦ inl (
            rw (store-cleared s v, e)
              (modify-Succeeds (wrapping_add b) (s.pointer - n) (cleared s)))
        | inr (l, e) ↦ inr (
          pointer_underflow,
          rw (store-cleared s v, e) refl,
          rw (modify-outside (wrapping_add b) to s (omega (arith, v.inside, v.allocated))) refl,
        )
      ]

abbrev guarded : (ℕ → State → Result State) → Machine → Outcome
guarded move m = with_result m.io (load m.state) λ b. if b == 0 then done m else on_state (move b) m

guarded-outside :
    (checked unchecked : ℕ → State → Result State) (m : Machine) (e : Error) (io : Io)
    → IsValid m.state
    → ((b : ℕ) → Transfer (checked b m.state) (unchecked b m.state))
    → guarded checked m ≡ failed e io
    → guarded unchecked m ≡ panicked io
guarded-outside checked unchecked m e io v step h =
    let (b, _, loaded, _) = load_valid m.state v in
    let go = λ (move : ℕ → State → Result State) (r : Result ℕ).
      with_result m.io r λ b'. if b' == 0 then done m else on_state (move b') m in
    let h₀ = sym (ap (go checked) loaded) ∙ h in
    ap (go unchecked) loaded ∙ elim (Bool-cases (b == 0)) [
      | inl z ↦ absurd (
          not_failed (done m) e io tt
            (sym (ap (λ t. if t then done m else on_state (checked b) m) z) ∙ h₀))
      | inr z ↦
          let h₁ = sym (ap (λ t. if t then done m else on_state (checked b) m) z) ∙ h₀ in
          ap (λ t. if t then done m else on_state (unchecked b) m) z ∙ elim (step b) [
            | inl ok_ ↦ absurd (
                not_failed (on_state (checked b) m) e io
                  (with_result-IsInside m.io (checked b m.state) _ ok_ (λ s. tt)) h₁)
            | inr (e', e₁, e₂) ↦
                ap (resume m) e₂
                ∙ ap panicked (ap (λ o. io_of o m.io) (sym (ap (resume m) e₁) ∙ h₁))
          ]
    ]

-- The instructions that the peephole optimizer makes of loops.
abbrev pub IsLoopForm : Instruction → Type 0
IsLoopForm (find_zero_right n) = Unit
IsLoopForm (find_zero_left n) = Unit
IsLoopForm (offset_add_right n) = Unit
IsLoopForm (offset_add_left n) = Unit
IsLoopForm _ = ⊥

-- Where a search for a zero or a transfer, by an amount that is positive and no more than the largest
-- slice, ends from a valid machine with an error of the pointer in the interpreter of src/peephole,
-- its Cranelift code reports no error: with one more round it accesses a cell outside the memory.
pub exec-unchecked :
    (host : Host) (fuel : ℕ) (i : Instruction) (m : Machine) (e : Error) (io : Io)
    → IsLoopForm i
    → IsFine i
    → IsValidMachine m
    → Nested.exec fuel i m ≡ failed e io
    → Cranelift.exec host (suc fuel) i m ≡ panicked io
unfolding Cranelift.exec Nested.exec
exec-unchecked host fuel (find_zero_right n) m e io l f v h =
    search-outside (State.right n) (skip_right n) (right-Step n f.1) fuel m e io v.valid h
exec-unchecked host fuel (find_zero_left n) m e io l f v h =
    search-outside (State.left n) (skip_left n) (left-Step n f.1) fuel m e io v.valid h
exec-unchecked host fuel (offset_add_right n) m e io l f v h =
    guarded-outside (move_right n) (add_right n) m e io v.valid
      (λ b. right-Transfer n b f.1 m.state v.valid) h
exec-unchecked host fuel (offset_add_left n) m e io l f v h =
    guarded-outside (move_left n) (add_left n) m e io v.valid
      (λ b. left-Transfer n b f.1 m.state v.valid) h
exec-unchecked host fuel (left n) m e io l f v h = absurd l
exec-unchecked host fuel (right n) m e io l f v h = absurd l
exec-unchecked host fuel (add n) m e io l f v h = absurd l
exec-unchecked host fuel in_ m e io l f v h = absurd l
exec-unchecked host fuel out m e io l f v h = absurd l
exec-unchecked host fuel set_zero m e io l f v h = absurd l
exec-unchecked host fuel (jump_zero n) m e io l f v h = absurd l
exec-unchecked host fuel (jump_not_zero n) m e io l f v h = absurd l
