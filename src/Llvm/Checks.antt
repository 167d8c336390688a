-- ===== src/Llvm/Checks.antt =====
-- src/llvm/compiler.rs: the checks that are emitted, and the moves of src/state.rs.
use bf_rs.Prelude.{
  ℕ, ◌+◌, ◌-◌, ◌%◌, ◌≤◌, ◌≡◌, refl, ap, inl, inr, length, length-set, le→leb, gt→leb, lt→ltb,
  ge→ltb, arith,
}
use bf_rs.Common.{ok}
use bf_rs.State
use bf_rs.State.{
  State, usize_mod, load, store, modify, wrapping_add, pos_offset, neg_offset, up_pos_offset,
  up_neg_offset,
}
use bf_rs.State.Valid.{IsValid, isize_max, pos_offset-cases, neg_offset-cases}
use bf_rs.Peephole.Interpreter.{move_right, move_left}
use bf_rs.State.Clear.{cleared, store-cleared, cleared-IsValid}
use bf_rs.Llvm.Code.{
  load_pos_offset, load_neg_offset, go_right, go_left, transfer_right, transfer_left,
}

module _ (n : ℕ) (s : State) (v : IsValid s) (h : n ≤ isize_max) where
  load_pos_offset-pos_offset : load_pos_offset n s ≡ pos_offset n s
  unfolding load_pos_offset
  load_pos_offset-pos_offset =
      let room = (length s.memory + (usize_mod - s.pointer % usize_mod)) % usize_mod in
      let left_over : room ≡ length s.memory - s.pointer = omega (arith, v.inside, v.allocated) in
      elim (pos_offset-cases s v n) [
        | inl (l, e) ↦ rw (e, lt→ltb n room (omega (arith, v.inside, v.allocated))) refl
        | inr (l, e) ↦ rw (e, ge→ltb n room (omega (arith, v.inside, v.allocated))) refl
      ]

  load_neg_offset-neg_offset : load_neg_offset n s ≡ neg_offset n s
  unfolding load_neg_offset
  load_neg_offset-neg_offset = elim (neg_offset-cases s v n) [
    | inl (l, e) ↦ rw (e, le→leb n s.pointer l) (ap ok (omega (arith, v.inside, v.allocated)))
    | inr (l, e) ↦ rw (e, gt→leb n s.pointer l) refl
  ]

  pub go_right-right : go_right n s ≡ State.right n s
  unfolding go_right State.right
  go_right-right = rw load_pos_offset-pos_offset refl

  pub go_left-left : go_left n s ≡ State.left n s
  unfolding go_left State.left
  go_left-left = rw load_neg_offset-neg_offset refl

  module _ (value : ℕ) (e : load s ≡ ok value) where
    -- The offset is checked before the own cell is cleared, and after that by the interpreter.
    pub transfer_right-move_right : transfer_right n s ≡ move_right n value s
    unfolding transfer_right move_right up_pos_offset
    transfer_right-move_right =
        let same : length (cleared s).memory ≡ length s.memory = length-set s.memory s.pointer 0 in
        let zeroed = store-cleared s v in
        elim (pos_offset-cases s v n) [
          | inl (l, e₁) ↦ elim (pos_offset-cases (cleared s) (cleared-IsValid s v) n) [
            | inl (l', e₂) ↦ rw (load_pos_offset-pos_offset, e, e₁, zeroed, e₂) refl
            | inr (l', e₂) ↦ absurd (omega arith)
          ]
          | inr (l, e₁) ↦ elim (pos_offset-cases (cleared s) (cleared-IsValid s v) n) [
            | inl (l', e₂) ↦ absurd (omega arith)
            | inr (l', e₂) ↦ rw (load_pos_offset-pos_offset, e₁, zeroed, e₂) refl
          ]
        ]

    pub transfer_left-move_left : transfer_left n s ≡ move_left n value s
    unfolding transfer_left move_left up_neg_offset
    transfer_left-move_left =
        let zeroed = store-cleared s v in
        elim (neg_offset-cases s v n) [
          | inl (l, e₁) ↦ elim (neg_offset-cases (cleared s) (cleared-IsValid s v) n) [
            | inl (l', e₂) ↦ rw (load_neg_offset-neg_offset, e, e₁, zeroed, e₂) refl
            | inr (l', e₂) ↦ absurd (omega arith)
          ]
          | inr (l, e₁) ↦ elim (neg_offset-cases (cleared s) (cleared-IsValid s v) n) [
            | inl (l', e₂) ↦ absurd (omega arith)
            | inr (l', e₂) ↦ rw (load_neg_offset-neg_offset, e₁, zeroed, e₂) refl
          ]
        ]
