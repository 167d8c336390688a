-- ===== src/Llvm/Graph/Guarded.antt =====
-- src/llvm/compiler.rs: the code of the two transfers, with the test and the check in front.
use bf_rs.Prelude.{
  ℕ, ◌+◌, ◌-◌, ◌<◌, ◌≤◌, ◌≡◌, refl, ◌==◌, if◌then◌else◌, eq→==, ne→==, List, ◌∷◌, length, arith,
}
use bf_rs.Common.{Result, ok}
use bf_rs.State.{State, load}
use bf_rs.State.Valid.{IsValid, isize_max, load_valid}
use bf_rs.Machine.{Machine, done, on_state, with_result}
use bf_rs.Peephole.Interpreter.{move_right, move_left}
use bf_rs.Rts.{underflow, overflow}
use bf_rs.Llvm.Ir
use bf_rs.Llvm.Ir.{Value, Instr, Blocks, Regs}
use bf_rs.Llvm.Graph.Leads.{Leads, here-Leads}
use bf_rs.Llvm.Graph.Cell.{test_code, if_not0-Leads}
use bf_rs.Llvm.Graph.Offset.{right_check, left_check, load_pos_offset-Leads, load_neg_offset-Leads}
use bf_rs.Llvm.Graph.Transfer.{
  transfer, transfer-Leads, target_cell, move_right-ok, move_right-err, move_left-ok, move_left-err,
}

module _ (undefined : ℕ → ℕ) (F : Blocks) (rest : List Instr) (r do_it after : ℕ) (regs : Regs)
    (m : Machine) (v : IsValid m.state) where
  -- The test, for any move.
  guarded-Leads :
      (move : ℕ → State → Result State)
      → ((b : ℕ) (regs' : Regs)
          → load m.state ≡ ok b
          → Leads undefined F (F do_it) regs' m (on_state (move b) m) (F after))
      → Leads undefined F
          (test_code r do_it after rest)
          regs
          m
          (with_result m.io
            (load m.state)
            λ value. if value == 0 then done m else on_state (move value) m)
          (F after)
  guarded-Leads move k =
      let (b, _, loaded, _) = load_valid m.state v in
      rw loaded (
        if_not0-Leads undefined F rest (F after) r regs m _ b do_it after
          (omega (arith, v.inside, v.allocated)) loaded
          (λ z regs'. rw (eq→== b 0 z) (here-Leads undefined F (F after) regs' m))
          (λ z regs'. rw (ne→== b 0 z) (k b regs' loaded)))

  module _ (n success q : ℕ) (h : n ≤ isize_max) (rest₁ rest₂ rest₃ : List Instr) where
    pub offset_add_right-Leads :
        F do_it ≡ right_check q (length m.state.memory) n success rest₁
        → F success ≡ (
            Ir.add (q + 1 + 1 + 1) (Value.reg q) (Value.word n)
            ∷ transfer (q + 1 + 1 + 1) (q + 1 + 1 + 1 + 1) after rest₂)
        → F 2 ≡ Ir.ret (Value.word overflow) ∷ rest₃
        → Leads undefined F
            (test_code r do_it after rest)
            regs
            m
            (with_result m.io
              (load m.state)
              λ value. if value == 0 then done m else on_state (move_right n value) m)
            (F after)
    offset_add_right-Leads at_do_it at_success at_overflow =
        guarded-Leads (move_right n) (λ b regs₁ loaded. rw at_do_it (
          load_pos_offset-Leads undefined F rest₁ _ rest₃ (F after) q regs₁ m _ v n success h
            at_success at_overflow
            (λ l regs₂ _ at.
              let (a, there, put_there, moves) = target_cell m.state v b (m.state.pointer + n) l in
              rw (move_right-ok m.state v b (m.state.pointer + n) l n a refl moves) (
                transfer-Leads undefined F rest₂ (q + 1 + 1 + 1) (q + 1 + 1 + 1 + 1) after
                  (omega arith) regs₂ m v b (m.state.pointer + n) a at l loaded there put_there))
            (λ l. rw (move_right-err m.state v n b h l) refl)))

    pub offset_add_left-Leads :
        F do_it ≡ left_check q n success rest₁
        → F success ≡ (
            Ir.sub (q + 1 + 1) (Value.reg q) (Value.word n)
            ∷ transfer (q + 1 + 1) (q + 1 + 1 + 1) after rest₂)
        → F 1 ≡ Ir.ret (Value.word underflow) ∷ rest₃
        → Leads undefined F
            (test_code r do_it after rest)
            regs
            m
            (with_result m.io
              (load m.state)
              λ value. if value == 0 then done m else on_state (move_left n value) m)
            (F after)
    offset_add_left-Leads at_do_it at_success at_underflow =
        guarded-Leads (move_left n) (λ b regs₁ loaded. rw at_do_it (
          load_neg_offset-Leads undefined F rest₁ _ rest₃ (F after) q regs₁ m _ v n success h
            at_success at_underflow
            (λ l regs₂ _ at.
              let inside : m.state.pointer - n < length m.state.memory = omega (arith, v.inside) in
              let (a, there, put_there, moves) =
                target_cell m.state v b (m.state.pointer - n) inside in
              rw (move_left-ok m.state v b (m.state.pointer - n) inside n a l refl moves) (
                transfer-Leads undefined F rest₂ (q + 1 + 1) (q + 1 + 1 + 1) after (omega arith)
                  regs₂ m v b (m.state.pointer - n) a at inside loaded there put_there))
            (λ l. rw (move_left-err m.state v n b l) refl)))
