-- ===== src/Cranelift/Transfers.antt =====
-- src/cranelift/compiler.rs: the two transfers, which change the other cell before the own one is
-- cleared, and the other way round in src/peephole/interpreter.rs.
use bf_rs.Prelude.{
  ℕ, ◌-◌, ◌≤◌, ◌<◌, ◌≡◌, ◌≢◌, refl, sym, ap, subst, ◌∙◌, List, inl, inr, length, length-set, set,
  get_elem?_of_lt, get_elem?-set_ne, set-set_comm, arith,
}
use bf_rs.Common.{ok, err, pointer_overflow, pointer_underflow, ◌>>=◌}
use bf_rs.State.{State, store, modify, wrapping_add, up_pos_offset, up_neg_offset}
use bf_rs.State.Valid.{
  IsValid, isize_max, load_valid, modify_of_get_elem?, pos_offset-cases, neg_offset-cases,
}
use bf_rs.State.Clear.{cleared, store-cleared, cleared-IsValid}
use bf_rs.Machine.Inside.{NotErr}
use bf_rs.Peephole.Interpreter.{move_right, move_left}
use bf_rs.Cranelift.{forth, back, add_right, add_left}

module _ (s : State) (v : IsValid s) where
  -- Changing two cells in either order.
  modify-store :
      (value address : ℕ)
      → address < length s.memory
      → address ≢ s.pointer
      → (modify (wrapping_add value) address s >>= store 0)
        ≡ modify (wrapping_add value) address (cleared s)
  unfolding store
  modify-store value address i d =
      let (b, held, _, _) = load_valid s v in
      let (c, there) = get_elem?_of_lt s.memory address i in
      let first : State = record s { memory = set s.memory address (wrapping_add value c) } in
      rw (modify_of_get_elem? (wrapping_add value) address c s there) (
        modify_of_get_elem? (λ _. 0) s.pointer b first
          (get_elem?-set_ne s.memory address s.pointer (wrapping_add value c) d ∙ held)
        ∙ ap (λ (x : List ℕ). ok (record s { memory = x }))
            (set-set_comm s.memory address s.pointer (wrapping_add value c) 0 d)
        ∙ sym (
            modify_of_get_elem? (wrapping_add value) address c (cleared s)
              (get_elem?-set_ne s.memory s.pointer address 0 (λ e. d (sym e)) ∙ there)))

  module _ (n value : ℕ) (pos : 0 < n) (h : n ≤ isize_max) where
    pub add_right-inside :
        NotErr (move_right n value s) → add_right n value s ≡ move_right n value s
    unfolding add_right move_right up_pos_offset
    add_right-inside inside =
        let same : length (cleared s).memory ≡ length s.memory = length-set s.memory s.pointer 0 in
        elim (pos_offset-cases (cleared s) (cleared-IsValid s v) n) [
          | inl (l, e) ↦
              rw (store-cleared s v, e)
                (modify-store value (forth s.pointer n) (omega arith)
                  (λ w. omega (arith, w, v.inside, v.allocated)))
          | inr (l, e) ↦ absurd (
              subst NotErr {x = move_right n value s} {y = err pointer_overflow}
                (rw (store-cleared s v, e) refl) inside)
        ]

    pub add_left-inside : NotErr (move_left n value s) → add_left n value s ≡ move_left n value s
    unfolding add_left move_left up_neg_offset
    add_left-inside inside = elim (neg_offset-cases (cleared s) (cleared-IsValid s v) n) [
      | inl (l, e) ↦
          let there : back s.pointer n ≡ s.pointer - n = omega (arith, v.inside, v.allocated) in
          rw (store-cleared s v, e, there)
            (modify-store value (s.pointer - n) (omega (arith, v.inside)) (λ w. omega (arith, w)))
      | inr (l, e) ↦ absurd (
          subst NotErr {x = move_left n value s} {y = err pointer_underflow}
            (rw (store-cleared s v, e) refl) inside)
    ]
