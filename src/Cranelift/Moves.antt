-- ===== src/Cranelift/Moves.antt =====
-- src/cranelift/compiler.rs: moves and transfers of the generated code, and those of src/state.rs.
use bf_rs.Prelude.{
  ℕ, ◌+◌, ◌≤◌, ◌≡◌, refl, ap, subst, inl, inr, le→leb, gt→leb, ge→ltb, lt→ltb, length, arith,
}
use bf_rs.Common.{ok, err, pointer_overflow, pointer_underflow}
use bf_rs.State
use bf_rs.State.{State, usize_mod, load, store, modify, wrapping_add, up_pos_offset, up_neg_offset}
use bf_rs.State.Valid.{IsValid, isize_max, pos_offset-cases, neg_offset-cases}
use bf_rs.Machine.Inside.{NotErr}
use bf_rs.Cranelift.{forth, back, go_right, go_left, skip_right, skip_left}

module _ (mem_start n : ℕ) (s : State) (v : IsValid s) (h : n ≤ isize_max)
    (room : mem_start + length s.memory ≤ isize_max) where
  pub go_right-at_addresses : go_right mem_start n s ≡ State.right n s
  unfolding go_right State.right
  go_right-at_addresses = elim (pos_offset-cases s v n) [
    | inl (i, e) ↦
        rw
          (
            e,
            gt→leb (forth mem_start (length s.memory)) (forth (mem_start + s.pointer) n)
                (omega (arith, v.inside)),
          )
          (ap (λ p. ok (record s { pointer = p })) (omega (arith, v.inside)))
    | inr (i, e) ↦
        rw
          (
            e,
            le→leb (forth mem_start (length s.memory)) (forth (mem_start + s.pointer) n)
                (omega (arith, v.inside)),
          )
          refl
  ]

  pub go_left-at_addresses : n ≤ mem_start → go_left mem_start n s ≡ State.left n s
  unfolding go_left State.left
  go_left-at_addresses l = elim (neg_offset-cases s v n) [
    | inl (i, e) ↦
        rw (e, ge→ltb (back (mem_start + s.pointer) n) mem_start (omega (arith, v.inside)))
          (ap (λ p. ok (record s { pointer = p })) (omega (arith, v.inside)))
    | inr (i, e) ↦
        rw (e, lt→ltb (back (mem_start + s.pointer) n) mem_start (omega (arith, v.inside))) refl
  ]

module _ (n : ℕ) (s : State) (v : IsValid s) where
  pub skip_right-inside : NotErr (State.right n s) → skip_right n s ≡ State.right n s
  unfolding skip_right State.right
  skip_right-inside h = elim (pos_offset-cases s v n) [
    | inl (i, e) ↦ rw e refl
    | inr (i, e) ↦
        absurd (subst NotErr {x = State.right n s} {y = err pointer_overflow} (rw e refl) h)
  ]

  pub skip_left-inside : NotErr (State.left n s) → skip_left n s ≡ State.left n s
  unfolding skip_left State.left
  skip_left-inside h = elim (neg_offset-cases s v n) [
    | inl (i, e) ↦ rw e (ap (λ p. ok (record s { pointer = p })) (omega (arith, v.inside)))
    | inr (i, e) ↦
        absurd (subst NotErr {x = State.left n s} {y = err pointer_underflow} (rw e refl) h)
  ]
