-- ===== src/Jit/Unchecked.antt =====
-- src/jit: native code without checks.
pub mod Correct
use bf_rs.Prelude.{
  ℕ, zero, suc, ◌+◌, ◌-◌, ◌%◌, ◌≤◌, ◌<◌, ◌≡◌, refl, sym, ap, subst, ◌∙◌, Bool, true, false, ◌&&◌,
  not, length, length-set, inl, inr, ◌⊎◌, ◌==◌, if◌then◌else◌, arith,
}
use bf_rs.Common
use bf_rs.Common.{Instruction, Result, ok, err, panic, pointer_overflow, pointer_underflow}
use bf_rs.Common.Laws.{Yields, Yields-bind, Yields-map}
use bf_rs.State
use bf_rs.State.{State, load, store, pos_offset, neg_offset, up_pos_offset, up_neg_offset}
use bf_rs.State.Valid.{
  IsValid, isize_max, load_valid, pos_offset-cases, neg_offset-cases, right-Returns, left-Returns,
}
use bf_rs.State.Clear.{cleared, store-cleared, cleared-IsValid}
use bf_rs.Machine.Inside.{NotErr}
use bf_rs.Machine.{
  Machine, Outcome, done, failed, panicked, out_of_fuel, ◌>>=◌, with_result, on_state, branch,
  while_nonzero,
}
use bf_rs.Machine.Laws.{IsValidMachine, Post, Preserves, on_state-Preserves}
use bf_rs.Tree
use bf_rs.Tree.{nil, ◌⨾◌, instr, loop, AllInstr, AllStatement, interpret_statement}
use bf_rs.Peephole
use bf_rs.Peephole.Interpreter as Nested
use bf_rs.Peephole.Interpreter.{move_right, move_left}
use bf_rs.Peephole.Safety.{IsFine, exec-Preserves, interpret-Preserves}
use bf_rs.Jit.Analysis.{no_analysis}
use bf_rs.Jit.Code as Native
use bf_rs.Jit.Code.{go_right, go_left, transfer_right, transfer_left}
use bf_rs.Jit.Compiler.{emit, compile_program, compile_statement, compile}
use bf_rs.Jit.Checks.{
  go_right-right, go_left-left, transfer_right-move_right, transfer_left-move_left,
}

module _ (n : ℕ) (s : State) (v : IsValid s) (l : n ≤ isize_max) where
  pub go_right-inside : NotErr (State.right n s) → go_right n false s ≡ State.right n s
  unfolding State.right
  go_right-inside h = elim (pos_offset-cases s v n) [
    | inl (i, e) ↦ go_right-right n false s v l (inr (omega (arith, v.inside, v.allocated)))
    | inr (i, e) ↦
        absurd (subst NotErr {x = State.right n s} {y = err pointer_overflow} (rw e refl) h)
  ]

  pub go_left-inside : NotErr (State.left n s) → go_left n false s ≡ State.left n s
  unfolding State.left
  go_left-inside h = elim (neg_offset-cases s v n) [
    | inl (i, e) ↦ go_left-left n false s v l (inr i)
    | inr (i, e) ↦
        absurd (subst NotErr {x = State.left n s} {y = err pointer_underflow} (rw e refl) h)
  ]

  module _ (b : ℕ) (held : load s ≡ ok b) where
    pub transfer_right-inside :
        NotErr (move_right n b s) → transfer_right n false s ≡ move_right n b s
    unfolding move_right up_pos_offset
    transfer_right-inside h =
        let t = cleared s in
        let emptied = store-cleared s v in
        let same : length t.memory ≡ length s.memory = length-set s.memory s.pointer 0 in
        elim (pos_offset-cases t (cleared-IsValid s v) n) [
          | inl (i, e) ↦
              transfer_right-move_right n false s v l b held
                (inr (omega (arith, v.inside, v.allocated)))
          | inr (i, e) ↦ absurd (
              subst NotErr {x = move_right n b s} {y = err pointer_overflow} (rw (emptied, e) refl)
                h)
        ]

    pub transfer_left-inside : NotErr (move_left n b s) → transfer_left n false s ≡ move_left n b s
    unfolding move_left up_neg_offset
    transfer_left-inside h =
        let t = cleared s in
        let emptied = store-cleared s v in
        elim (neg_offset-cases t (cleared-IsValid s v) n) [
          | inl (i, e) ↦ transfer_left-move_left n false s v l b held (inr i)
          | inr (i, e) ↦ absurd (
              subst NotErr {x = move_left n b s} {y = err pointer_underflow} (rw (emptied, e) refl)
                h)
        ]
