-- ===== src/Cranelift/Outside.antt =====
-- src/cranelift/compiler.rs: a search for a zero without checks, where it leaves the memory.
use bf_rs.Prelude.{
  ℕ, zero, suc, List, [], ◌∷◌, ◌≡◌, ◌≤◌, ◌-◌, ◌⊎◌, inl, inr, refl, sym, ap, ◌∙◌, length, Bool-cases,
  ==→eq, arith, subst, ◌==◌,
}
use bf_rs.Common.{
  Error, Instruction, left, right, add, in_, out, jump_zero, jump_not_zero, set_zero,
  offset_add_right, offset_add_left, find_zero_right, find_zero_left, Result, ok, err, panic,
  pointer_overflow, pointer_underflow,
}
use bf_rs.Common
use bf_rs.State
use bf_rs.State.Valid.{IsValid, isize_max, load_valid, pos_offset-cases, neg_offset-cases}
use bf_rs.State.{State, index, load, modify, store, wrapping_add, up_pos_offset, up_neg_offset}
use bf_rs.Machine.{
  Io, Machine, Outcome, done, failed, panicked, out_of_fuel, ◌>>=◌, with_result, on_state,
  while_nonzero,
}
use bf_rs.Machine.Inside.{IsInside}
use bf_rs.Machine.Laws.{while_nonzero-done, while_nonzero-again}
use bf_rs.Cranelift.{forth, back, skip_right, skip_left}

abbrev pub Succeeds {ℓ} : {A : Type ℓ} → Result A → Type 0
Succeeds (ok a) = Unit
Succeeds (err e) = ⊥
Succeeds panic = Unit

index-Succeeds : (memory : List ℕ) (address : ℕ) → Succeeds (index memory address)
unfolding index
index-Succeeds [] address = tt
index-Succeeds (b ∷ memory) zero = tt
index-Succeeds (b ∷ memory) (suc address) = index-Succeeds memory address

bind-Succeeds {ℓ κ} :
    {A : Type ℓ} {B : Type κ} (r : Result A) (f : A → Result B)
    → Succeeds r
    → ((a : A) → Succeeds (f a))
    → Succeeds (Common.◌>>=◌ r f)
bind-Succeeds (ok a) f h k = k a
bind-Succeeds (err e) f h k = h
bind-Succeeds panic f h k = tt

pub modify-Succeeds : (f : ℕ → ℕ) (address : ℕ) (s : State) → Succeeds (modify f address s)
unfolding modify
modify-Succeeds f address s =
    bind-Succeeds (index s.memory address) _ (index-Succeeds s.memory address) (λ b. tt)

pub with_result-IsInside {ℓ} :
    {A : Type ℓ} (io : Io) (r : Result A) (f : A → Outcome)
    → Succeeds r
    → ((a : A) → IsInside (f a))
    → IsInside (with_result io r f)
with_result-IsInside io (ok a) f h k = k a
with_result-IsInside io (err e) f h k = h
with_result-IsInside io panic f h k = tt

pub index-outside :
    (memory : List ℕ) (address : ℕ) → length memory ≤ address → index memory address ≡ panic
unfolding index
index-outside [] address h = refl
index-outside (b ∷ memory) zero h = absurd (omega arith)
index-outside (b ∷ memory) (suc address) h = index-outside memory address (omega arith)

abbrev pub io_of : Outcome → Io → Io
io_of (done m) io = m.io
io_of (failed e io') io = io'
io_of (panicked io') io = io'
io_of out_of_fuel io = io

pub not_failed : (o : Outcome) (e : Error) (io : Io) → IsInside o → o ≡ failed e io → ⊥
not_failed o e io h same = subst IsInside same h

-- A step of a search: it stays in the memory with and without the check, or it is refused by the
-- check, and without that leads to a place at which there is nothing to load.
abbrev Step : (State → Result State) → (State → Result State) → State → Type 0
Step checked skip s =
    ((s' : State) × (checked s ≡ ok s') × (skip s ≡ ok s') × IsValid s')
    ⊎ ((e : Error) × (s' : State) × (checked s ≡ err e) × (skip s ≡ ok s') × (load s' ≡ panic))

module _ (n : ℕ) (h : n ≤ isize_max) (s : State) (v : IsValid s) where
  pub right-Step : Step (State.right n) (skip_right n) s
  unfolding State.right skip_right load
  right-Step =
      let to = forth s.pointer n in
      elim (pos_offset-cases s v n) [
        | inl (l, e) ↦ inl (
          record s { pointer = to },
          rw e refl,
          refl,
          record { inside = l; allocated = v.allocated; bytes = v.bytes },
        )
        | inr (l, e) ↦ inr (
          pointer_overflow,
          record s { pointer = to },
          rw e refl,
          refl,
          index-outside s.memory to l,
        )
      ]

  pub left-Step : Step (State.left n) (skip_left n) s
  unfolding State.left skip_left load
  left-Step =
      let to = back s.pointer n in
      elim (neg_offset-cases s v n) [
        | inl (l, e) ↦ inl (
          record s { pointer = s.pointer - n },
          rw e refl,
          ap (λ p. ok (record s { pointer = p })) (omega (arith, v.inside, v.allocated)),
          record { inside = omega (arith, v.inside); allocated = v.allocated; bytes = v.bytes },
        )
        | inr (l, e) ↦ inr (
          pointer_underflow,
          record s { pointer = to },
          rw e refl,
          refl,
          index-outside s.memory to (omega (arith, v.inside, v.allocated)),
        )
      ]

while_nonzero-outside :
    (skip : State → Result State) (fuel : ℕ) (m : Machine)
    → load m.state ≡ panic
    → while_nonzero (suc fuel) (on_state skip) m ≡ panicked m.io
unfolding while_nonzero
while_nonzero-outside skip fuel m e = rw e refl

abbrev pub resume : Machine → Result State → Outcome
resume m r = with_result m.io r λ s. done (record { state = s; io = m.io })

pub search-outside :
    (checked skip : State → Result State)
    → ((s : State) → IsValid s → Step checked skip s)
    → (fuel : ℕ) (m : Machine) (e : Error) (io : Io) → IsValid m.state
    → while_nonzero fuel (on_state checked) m ≡ failed e io
    → while_nonzero (suc fuel) (on_state skip) m ≡ panicked io
unfolding while_nonzero
search-outside checked skip step zero m e io v h = absurd (cc)
search-outside checked skip step (suc fuel) m e io v h =
    let (b, _, loaded, _) = load_valid m.state v in
    elim (Bool-cases (b == 0)) [
      | inl z ↦ absurd (
          not_failed (done m) e io tt
            (sym (while_nonzero-done fuel (on_state checked) m (loaded ∙ ap ok (==→eq b 0 z))) ∙ h))
      | inr z ↦
          let again : load m.state ≡ ok (suc (b - 1)) = loaded ∙ ap ok (ground arith) in
          let h' : (resume m (checked m.state) >>= while_nonzero fuel (on_state checked))
              ≡ failed e io =
            sym (while_nonzero-again fuel (b - 1) (on_state checked) m again) ∙ h in
          let go = λ (r : Result State). resume m r >>= while_nonzero (suc fuel) (on_state skip) in
          while_nonzero-again (suc fuel) (b - 1) (on_state skip) m again ∙ elim (step m.state v) [
            | inl (s', e₁, e₂, v') ↦
                ap go e₂
                ∙ search-outside checked skip step fuel (record { state = s'; io = m.io }) e io v'
                    (sym (ap (λ r. resume m r >>= while_nonzero fuel (on_state checked)) e₁) ∙ h')
            | inr (e', s', e₁, e₂, lost) ↦
                ap go e₂
                ∙ while_nonzero-outside skip fuel (record { state = s'; io = m.io }) lost
                ∙ ap panicked (
                    ap (λ o. io_of o m.io)
                      (sym (ap (λ r. resume m r >>= while_nonzero fuel (on_state checked)) e₁)
                        ∙ h'))
          ]
    ]
