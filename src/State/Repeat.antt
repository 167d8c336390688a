-- ===== src/State/Repeat.antt =====
-- src/state.rs: operations with a count, and with the count 1.
use bf_rs.Prelude.{
  ℕ, suc, ◌%◌, ◌≤◌, ◌≡◌, ap, sym, ◌∙◌, List, set, set-set_self, get_elem?-set_self, arith,
}
use mathlib.Core.Path.{fun_ext}
use bf_rs.Common.{ok, ◌>>=◌}
use bf_rs.State.{State, left, right, up, down, modify, wrapping_add, wrapping_sub, byte_mod}
use bf_rs.State.Valid.{IsValid, isize_max, load_valid, modify_of_get_elem?}

module _ (s : State) (v : IsValid s) where
  pub left-suc : (n : ℕ) → left (suc n) s ≡ (left n s >>= left 1)
  unfolding left
  left-suc n = ground arith

  pub right-suc : (n : ℕ) → suc n ≤ isize_max → right (suc n) s ≡ (right n s >>= right 1)
  unfolding right
  right-suc n h = ground arith

  -- Two changes of the cell under the pointer are one.
  pub modify-modify :
      (f g : ℕ → ℕ)
      → (modify f s.pointer s >>= λ s'. modify g s'.pointer s') ≡ modify (λ b. g (f b)) s.pointer s
  modify-modify f g =
      let (b, e, _, _) = load_valid s v in
      let t : State = record s { memory = set s.memory s.pointer (f b) } in
      rw (modify_of_get_elem? f s.pointer b s e, modify_of_get_elem? (λ c. g (f c)) s.pointer b s e)
        (modify_of_get_elem? g s.pointer (f b) t
            (get_elem?-set_self s.memory s.pointer (f b) v.inside)
          ∙ ap (λ (l : List ℕ). ok (record s { memory = l }))
              (set-set_self s.memory s.pointer (f b) (g (f b))))

  pub up-suc : (n : ℕ) → up (suc n % byte_mod) s ≡ (up (n % byte_mod) s >>= up 1)
  unfolding up
  up-suc n = sym (
      modify-modify (wrapping_add (n % byte_mod)) (wrapping_add 1)
      ∙ ap (λ f. modify f s.pointer s) (fun_ext λ b. omega arith))

  pub down-suc : (n : ℕ) → down (suc n % byte_mod) s ≡ (down (n % byte_mod) s >>= down 1)
  unfolding down
  down-suc n = sym (
      modify-modify (wrapping_sub (n % byte_mod)) (wrapping_sub 1)
      ∙ ap (λ f. modify f s.pointer s) (fun_ext λ b. omega arith))
