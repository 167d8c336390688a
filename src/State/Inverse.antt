-- ===== src/State/Inverse.antt =====
-- src/state.rs: moves and additions, and their counterparts.
use bf_rs.Prelude.{
  ℕ, ◌<◌, ◌≤◌, ◌≡◌, sym, ap, subst, ◌∙◌, some, set, get_elem?-set_self, set-set_self, set_same,
  arith,
}
use bf_rs.Common.{ok}
use bf_rs.State.{
  State, pos_offset, neg_offset, left, right, up, down, modify, wrapping_add, wrapping_sub,
  byte_mod,
}
use bf_rs.State.Valid.{IsValid, isize_max, load_valid, modify_of_get_elem?}

-- In a valid state, a move to the right that succeeds, by no more than the largest slice, is
-- undone by the same move to the left.
pub left-right :
    (s s' : State) (n : ℕ) → IsValid s → n ≤ isize_max → right n s ≡ ok s' → left n s' ≡ ok s
unfolding right left pos_offset neg_offset
left-right s s' n v h e = ground arith

-- In a valid state, adding a byte to the cell under the pointer is undone by taking it away.
pub down-up : (s s' : State) (n : ℕ) → IsValid s → n < byte_mod → up n s ≡ ok s' → down n s' ≡ ok s
unfolding up down
down-up s s' n v h e =
    let (b, held, _, is_byte) = load_valid s v in
    let there = modify_of_get_elem? (wrapping_add n) s.pointer b s held in
    let t = record s { memory = set s.memory s.pointer (wrapping_add n b) } in
    let e' : s' ≡ t = cc in
    let held' = get_elem?-set_self s.memory s.pointer (wrapping_add n b) v.inside in
    subst (λ x. modify (wrapping_sub n) x.pointer x ≡ ok s) (sym e')
      (modify_of_get_elem? (wrapping_sub n) s.pointer (wrapping_add n b) t held'
        ∙ ap (λ m. ok (record s { memory = m }))
            (set-set_self s.memory s.pointer (wrapping_add n b) (wrapping_sub n (wrapping_add n b))
              ∙ set_same s.memory s.pointer (wrapping_sub n (wrapping_add n b))
                  (held ∙ ap some (omega arith))))
