-- ===== src/Llvm/Graph/Offset.antt =====
-- src/llvm/compiler.rs: the code of `load_pos_offset` and `load_neg_offset`, with the checks.
use bf_rs.Prelude.{
  ℕ, ◌+◌, ◌-◌, ◌<◌, ◌≤◌, ◌≡◌, refl, ap, ◌∙◌, List, ◌∷◌, ltb, leb, length, ltb→lt, ltb→ge, leb→le,
  leb→gt, arith,
}
use bf_rs.Common.{pointer_overflow, pointer_underflow}
use bf_rs.Machine.{Machine, Outcome, failed}
use bf_rs.State.Valid.{IsValid, isize_max}
use bf_rs.Rts.{underflow, overflow}
use bf_rs.Llvm.Ir
use bf_rs.Llvm.Ir.{
  Value, Instr, Blocks, Regs, put, eval, step, run, assign, compare_with, sum, difference,
}
use bf_rs.Llvm.Graph.Leads.{Leads, exit-Leads}
use bf_rs.Llvm.Graph.Data.{Keeps, assign-Leads}
use bf_rs.Llvm.Graph.Cell.{load_pointer-Leads, compare-Leads}

-- The checks of the two offsets.
abbrev pub right_check : ℕ → ℕ → ℕ → ℕ → List Instr → List Instr
right_check r size offset success rest =
    Ir.load r Value.slot
    ∷ Ir.sub (r + 1) (Value.word size) (Value.reg r)
    ∷ Ir.cmp_ult (r + 1 + 1) (Value.word offset) (Value.reg (r + 1))
    ∷ Ir.cond_br (Value.reg (r + 1 + 1)) success 2
    ∷ rest

abbrev pub left_check : ℕ → ℕ → ℕ → List Instr → List Instr
left_check r offset success rest =
    Ir.load r Value.slot
    ∷ Ir.cmp_ule (r + 1) (Value.word offset) (Value.reg r)
    ∷ Ir.cond_br (Value.reg (r + 1)) success 1
    ∷ rest

module _ (undefined : ℕ → ℕ) (F : Blocks) (code' : List Instr) (regs : Regs) (m : Machine)
    (o : Outcome) where
  -- The blocks `underflow` and `overflow`.
  underflow-Leads :
      (rest : List Instr)
      → F 1 ≡ Ir.ret (Value.word underflow) ∷ rest
      → o ≡ failed pointer_underflow m.io
      → Leads undefined F (F 1) regs m o code'
  unfolding step
  underflow-Leads rest e h =
      rw (e, h)
        (exit-Leads undefined F (Ir.ret (Value.word underflow)) rest code' regs m pointer_underflow
          underflow refl refl)

  overflow-Leads :
      (rest : List Instr)
      → F 2 ≡ Ir.ret (Value.word overflow) ∷ rest
      → o ≡ failed pointer_overflow m.io
      → Leads undefined F (F 2) regs m o code'
  unfolding step
  overflow-Leads rest e h =
      rw (e, h)
        (exit-Leads undefined F (Ir.ret (Value.word overflow)) rest code' regs m pointer_overflow
          overflow refl refl)

module _ (undefined : ℕ → ℕ) (F : Blocks) (rest rest₁ rest₂ code' : List Instr) (r : ℕ)
    (regs : Regs) (m : Machine) (o : Outcome) (v : IsValid m.state) (offset success : ℕ)
    (h : offset ≤ isize_max) where
  pub load_pos_offset-Leads :
      F success ≡ Ir.add (r + 1 + 1 + 1) (Value.reg r) (Value.word offset) ∷ rest₁
      → F 2 ≡ Ir.ret (Value.word overflow) ∷ rest₂
      → (m.state.pointer + offset < length m.state.memory
          → (regs' : Regs) → Keeps r regs regs'
          → regs' (r + 1 + 1 + 1) ≡ Ir.word (m.state.pointer + offset)
          → Leads undefined F rest₁ regs' m o code')
      → (length m.state.memory ≤ m.state.pointer + offset → o ≡ failed pointer_overflow m.io)
      → Leads undefined F (right_check r (length m.state.memory) offset success rest) regs m o code'
  unfolding step
  load_pos_offset-Leads at_success at_overflow k fails =
      let size = length m.state.memory in
      let at = m.state.pointer in
      let room = size - at in
      load_pointer-Leads undefined F _ code' r regs m o (λ regs₁ kept₁ at_pointer.
        assign-Leads undefined F _ _ code' (r + 1) regs₁ (Ir.word room) m o
          (ap (λ h. assign regs₁ (r + 1) (difference (Ir.word size) h) m) at_pointer
            ∙ ap (λ n. assign regs₁ (r + 1) (Ir.word n) m) (omega (arith, v.inside, v.allocated)))
          (λ regs₂ kept₂ has_room.
            compare-Leads undefined F rest code' (r + 1 + 1) regs₂ m o _ (ltb offset room) success 2
              (ap (λ h. assign regs₂ (r + 1 + 1) (compare_with ltb (Ir.word offset) h) m) has_room)
              (λ t regs₃ kept₃.
                let held = kept₃ r (omega arith) ∙ kept₂ r (omega arith) ∙ at_pointer in
                rw at_success (
                  assign-Leads undefined F _ _ code' (r + 1 + 1 + 1) regs₃ (Ir.word (at + offset)) m
                    o
                    (ap (λ h. assign regs₃ (r + 1 + 1 + 1) (sum h (Ir.word offset)) m) held
                      ∙ ap (λ n. assign regs₃ (r + 1 + 1 + 1) (Ir.word n) m)
                          (omega (arith, v.inside, v.allocated)))
                    (λ regs₄ kept₄ moved.
                      k (omega (arith, v.inside, ltb→lt offset room t)) regs₄
                        (λ j l.
                          kept₄ j (omega arith)
                          ∙ kept₃ j (omega arith)
                          ∙ kept₂ j (omega arith)
                          ∙ kept₁ j l)
                        moved)))
              (λ t regs₃ _.
                overflow-Leads undefined F code' regs₃ m o rest₂ at_overflow
                  (fails (omega (arith, v.inside, ltb→ge offset room t))))))

  pub load_neg_offset-Leads :
      F success ≡ Ir.sub (r + 1 + 1) (Value.reg r) (Value.word offset) ∷ rest₁
      → F 1 ≡ Ir.ret (Value.word underflow) ∷ rest₂
      → (offset ≤ m.state.pointer
          → (regs' : Regs) → Keeps r regs regs'
          → regs' (r + 1 + 1) ≡ Ir.word (m.state.pointer - offset)
          → Leads undefined F rest₁ regs' m o code')
      → (m.state.pointer < offset → o ≡ failed pointer_underflow m.io)
      → Leads undefined F (left_check r offset success rest) regs m o code'
  unfolding step
  load_neg_offset-Leads at_success at_underflow k fails =
      let at = m.state.pointer in
      load_pointer-Leads undefined F _ code' r regs m o (λ regs₁ kept₁ at_pointer.
        compare-Leads undefined F rest code' (r + 1) regs₁ m o _ (leb offset at) success 1
          (ap (λ h. assign regs₁ (r + 1) (compare_with leb (Ir.word offset) h) m) at_pointer)
          (λ t regs₂ kept₂.
            let held = kept₂ r (omega arith) ∙ at_pointer in
            let enough = leb→le offset at t in
            rw at_success (
              assign-Leads undefined F _ _ code' (r + 1 + 1) regs₂ (Ir.word (at - offset)) m o
                (ap (λ h. assign regs₂ (r + 1 + 1) (difference h (Ir.word offset)) m) held
                  ∙ ap (λ n. assign regs₂ (r + 1 + 1) (Ir.word n) m)
                      (omega (arith, v.inside, v.allocated)))
                (λ regs₃ kept₃ moved.
                  k enough regs₃ (λ j l. kept₃ j (omega arith) ∙ kept₂ j (omega arith) ∙ kept₁ j l)
                    moved)))
          (λ t regs₂ _.
            underflow-Leads undefined F code' regs₂ m o rest₂ at_underflow
              (fails (leb→gt offset at t))))
