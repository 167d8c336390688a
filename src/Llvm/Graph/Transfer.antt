-- ===== src/Llvm/Graph/Transfer.antt =====
-- src/llvm/compiler.rs: the code of the two transfers.
use bf_rs.Prelude.{
  ℕ, ◌+◌, ◌-◌, ◌%◌, ◌<◌, ◌≤◌, ◌≡◌, refl, ap, ◌∙◌, List, ◌∷◌, set, length, length-set,
  get_elem?_of_lt, arith,
}
use bf_rs.Common.{ok, err, pointer_overflow, pointer_underflow}
use bf_rs.State.{
  State, usize_mod, byte_mod, index, modify, load, wrapping_add, up_pos_offset, up_neg_offset,
}
use bf_rs.State.Valid.{IsValid, isize_max, modify_of_get_elem?}
use bf_rs.State.Clear.{cleared, store-cleared, cleared-IsValid}
use bf_rs.Machine.{Machine, done}
use bf_rs.Peephole.Interpreter.{move_right, move_left}
use bf_rs.Llvm.Ir
use bf_rs.Llvm.Ir.{Value, Instr, Blocks, Regs, step, assign, sum}
use bf_rs.Llvm.Graph.Leads.{Leads, goto-Leads, here-Leads}
use bf_rs.Llvm.Graph.Data.{assign-Leads, load_data_at-Leads, store_data_at-Leads}
use bf_rs.Llvm.Graph.Cell.{load_data-Leads, store_data-Leads}
use bf_rs.Llvm.Graph.Moves.{pos_offset-ok, pos_offset-err, neg_offset-ok, neg_offset-err}

-- The cell at the pointer is moved to a target.
abbrev pub moved : ℕ → ℕ → ℕ → State → State
moved b target a s = record s {
  memory = set (set s.memory s.pointer 0) target ((b + a) % byte_mod);
}

-- The code behind the check, from the register `q` on. The address is in the register `j`.
abbrev pub transfer : ℕ → ℕ → ℕ → List Instr → List Instr
transfer j q after rest =
    Ir.load q Value.slot
    ∷ Ir.gep (q + 1) Value.array (Value.reg q)
    ∷ Ir.load (q + 1 + 1) (Value.reg (q + 1))
    ∷ Ir.load (q + 1 + 1 + 1) Value.slot
    ∷ Ir.gep (q + 1 + 1 + 1 + 1) Value.array (Value.reg (q + 1 + 1 + 1))
    ∷ Ir.store (Value.byte 0) (Value.reg (q + 1 + 1 + 1 + 1))
    ∷ Ir.gep (q + 1 + 1 + 1 + 1 + 1) Value.array (Value.reg j)
    ∷ Ir.load (q + 1 + 1 + 1 + 1 + 1 + 1) (Value.reg (q + 1 + 1 + 1 + 1 + 1))
    ∷ Ir.add (q + 1 + 1 + 1 + 1 + 1 + 1 + 1) (Value.reg (q + 1 + 1))
        (Value.reg (q + 1 + 1 + 1 + 1 + 1 + 1))
    ∷ Ir.gep (q + 1 + 1 + 1 + 1 + 1 + 1 + 1 + 1) Value.array (Value.reg j)
    ∷ Ir.store (Value.reg (q + 1 + 1 + 1 + 1 + 1 + 1 + 1))
        (Value.reg (q + 1 + 1 + 1 + 1 + 1 + 1 + 1 + 1))
    ∷ Ir.br after
    ∷ rest

module _ (undefined : ℕ → ℕ) (F : Blocks) (rest : List Instr) (j q after : ℕ) (before : j < q)
    (regs : Regs) (m : Machine) (v : IsValid m.state) (b target a : ℕ) where
  pub transfer-Leads :
      regs j ≡ Ir.word target
      → target < length m.state.memory
      → load m.state ≡ ok b
      → index (cleared m.state).memory target ≡ ok a
      → modify (λ _. (b + a) % byte_mod) target (cleared m.state) ≡ ok (moved b target a m.state)
      → Leads undefined F
          (transfer j q after rest)
          regs
          m
          (done (record { state = moved b target a m.state; io = m.io }))
          (F after)
  unfolding step
  transfer-Leads at inside loaded there e =
      let o = done (record { state = moved b target a m.state; io = m.io }) in
      let m₁ : Machine = record { state = cleared m.state; io = m.io } in
      let small : m.state.pointer < usize_mod = omega (arith, v.inside, v.allocated) in
      let near : target < usize_mod = omega (arith, inside, v.allocated) in
      let q₃ = q + 1 + 1 + 1 in
      let q₅ = q₃ + 1 + 1 in
      let q₇ = q₅ + 1 + 1 in
      load_data-Leads undefined F _ (F after) q regs m o small b loaded (λ regs₁ kept₁ has_b.
        store_data-Leads undefined F _ (F after) q₃ regs₁ m o small (Value.byte 0) 0
          (cleared m.state) (λ regs' _. refl) (store-cleared m.state v)
          (λ regs₂ kept₂.
            load_data_at-Leads undefined F _ (F after) q₅ regs₂ m₁ o (Value.reg j) target a
              (kept₂ j (omega arith) ∙ kept₁ j (omega arith) ∙ at) near there
              (λ regs₃ kept₃ has_a.
                assign-Leads undefined F _ _ (F after) q₇ regs₃ (Ir.byte ((b + a) % byte_mod)) m₁ o
                  (ap (λ h. assign regs₃ q₇ (sum h (regs₃ (q₅ + 1))) m₁)
                      (kept₃ (q + 1 + 1) (omega arith) ∙ kept₂ (q + 1 + 1) (omega arith) ∙ has_b)
                    ∙ ap (λ h. assign regs₃ q₇ (sum (Ir.byte b) h) m₁) has_a)
                  (λ regs₄ kept₄ has_sum.
                    store_data_at-Leads undefined F _ (F after) (q₇ + 1) regs₄ m₁ o (Value.reg j)
                      (Value.reg q₇) target ((b + a) % byte_mod) (moved b target a m.state)
                      (kept₄ j (omega arith)
                        ∙ kept₃ j (omega arith)
                        ∙ kept₂ j (omega arith)
                        ∙ kept₁ j (omega arith)
                        ∙ at)
                      near (λ regs' kept. kept q₇ (omega arith) ∙ has_sum) e
                      (λ regs₅ _.
                        goto-Leads undefined F (Ir.br after) after rest (F after) regs₅ _ o refl
                          (here-Leads undefined F (F after) regs₅ _))))))

module _ (s : State) (v : IsValid s) (b target : ℕ) (inside : target < length s.memory) where
  pub target_cell :
      (a : ℕ) × (index (cleared s).memory target ≡ ok a)
      × (modify (λ _. (b + a) % byte_mod) target (cleared s) ≡ ok (moved b target a s))
      × (modify (wrapping_add b) target (cleared s) ≡ ok (moved b target a s))
  unfolding index
  target_cell =
      let (a, held) = get_elem?_of_lt (cleared s).memory target (rw length-set inside) in
      (
        a,
        rw held refl,
        modify_of_get_elem? (λ _. (b + a) % byte_mod) target a (cleared s) held,
        modify_of_get_elem? (wrapping_add b) target a (cleared s) held
            ∙ ap (λ n. ok (record s { memory = set (set s.memory s.pointer 0) target n }))
                (omega arith),
      )

  pub move_right-ok :
      (n a : ℕ)
      → s.pointer + n ≡ target
      → modify (wrapping_add b) target (cleared s) ≡ ok (moved b target a s)
      → move_right n b s ≡ ok (moved b target a s)
  unfolding move_right up_pos_offset
  move_right-ok n a e h =
      let same : length (cleared s).memory ≡ length s.memory = length-set s.memory s.pointer 0 in
      let checked = pos_offset-ok (cleared s) (cleared-IsValid s v) n (omega arith) in
      rw (store-cleared s v, checked, e) h

  pub move_left-ok :
      (n a : ℕ)
      → n ≤ s.pointer
      → s.pointer - n ≡ target
      → modify (wrapping_add b) target (cleared s) ≡ ok (moved b target a s)
      → move_left n b s ≡ ok (moved b target a s)
  unfolding move_left up_neg_offset
  move_left-ok n a l e h =
      let checked = neg_offset-ok (cleared s) (cleared-IsValid s v) n l in
      rw (store-cleared s v, checked, e) h

module _ (s : State) (v : IsValid s) (n b : ℕ) where
  pub move_right-err :
      n ≤ isize_max → length s.memory ≤ s.pointer + n → move_right n b s ≡ err pointer_overflow
  unfolding move_right up_pos_offset
  move_right-err h l =
      let same : length (cleared s).memory ≡ length s.memory = length-set s.memory s.pointer 0 in
      let checked = pos_offset-err (cleared s) (cleared-IsValid s v) n h (omega arith) in
      rw (store-cleared s v, checked) refl

  pub move_left-err : s.pointer < n → move_left n b s ≡ err pointer_underflow
  unfolding move_left up_neg_offset
  move_left-err l =
      let checked = neg_offset-err (cleared s) (cleared-IsValid s v) n l in
      rw (store-cleared s v, checked) refl
