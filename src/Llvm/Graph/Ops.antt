-- ===== src/Llvm/Graph/Ops.antt =====
-- src/llvm/compiler.rs: the code of the instructions without branches of their own.
use bf_rs.Prelude.{ℕ, ◌+◌, ◌%◌, ◌<◌, ◌≡◌, refl, ap, ◌∙◌, List, [], ◌∷◌, set, arith}
use bf_rs.Common.{ok}
use bf_rs.State.{State, usize_mod, byte_mod, read_exact, wrapping_add, store, read, write, up}
use bf_rs.State.Valid.{IsValid, load_valid, modify_of_get_elem?}
use bf_rs.Machine.{Machine, on_state, read_byte, write_byte}
use bf_rs.Llvm.Ir
use bf_rs.Llvm.Ir.{Value, Instr, Blocks, Held, Regs, step, assign, sum, eval, write_c}
use bf_rs.Llvm.Graph.Leads.{Leads, proceed-Leads, here-Leads}
use bf_rs.Llvm.Graph.Data.{put_self, assign-Leads}
use bf_rs.Llvm.Graph.Cell.{load_data-Leads, store_data-Leads}

-- The state with a byte in its own cell.
abbrev pub put_byte : ℕ → State → State
put_byte b s = record s { memory = set s.memory s.pointer b }

pub store-put_byte : (b : ℕ) (s : State) → IsValid s → store b s ≡ ok (put_byte b s)
unfolding store
store-put_byte b s v =
    let (a, held, _, _) = load_valid s v in modify_of_get_elem? (λ _. b) s.pointer a s held

module _ (undefined : ℕ → ℕ) (F : Blocks) (rest : List Instr) (r : ℕ) (regs : Regs) (m : Machine)
    (v : IsValid m.state) where
  small : m.state.pointer < usize_mod
  small = omega (arith, v.inside, v.allocated)

  pub set_zero-Leads :
      Leads undefined F
        (Ir.load r Value.slot
          ∷ Ir.gep (r + 1) Value.array (Value.reg r)
          ∷ Ir.store (Value.byte 0) (Value.reg (r + 1))
          ∷ rest)
        regs
        m
        (on_state (store 0) m)
        rest
  set_zero-Leads = rw (store-put_byte 0 m.state v) (
      store_data-Leads undefined F rest rest r regs m _ small (Value.byte 0) 0 (put_byte 0 m.state)
        (λ regs' _. refl) (store-put_byte 0 m.state v)
        (λ regs' _. here-Leads undefined F rest regs' _))

  pub add-Leads :
      (count : ℕ)
      → Leads undefined F
          (Ir.load r Value.slot
            ∷ Ir.gep (r + 1) Value.array (Value.reg r)
            ∷ Ir.load (r + 1 + 1) (Value.reg (r + 1))
            ∷ Ir.add (r + 1 + 1 + 1) (Value.reg (r + 1 + 1)) (Value.byte count)
            ∷ Ir.load (r + 1 + 1 + 1 + 1) Value.slot
            ∷ Ir.gep (r + 1 + 1 + 1 + 1 + 1) Value.array (Value.reg (r + 1 + 1 + 1 + 1))
            ∷ Ir.store (Value.reg (r + 1 + 1 + 1)) (Value.reg (r + 1 + 1 + 1 + 1 + 1))
            ∷ rest)
          regs
          m
          (on_state (up count) m)
          rest
  unfolding step up
  add-Leads count =
      let (b, held, loaded, _) = load_valid m.state v in
      let b' = (b + count) % byte_mod in
      rw (modify_of_get_elem? (wrapping_add count) m.state.pointer b m.state held) (
        load_data-Leads undefined F _ rest r regs m _ small b loaded (λ regs₁ kept₁ has_b.
          assign-Leads undefined F _ _ rest (r + 1 + 1 + 1) regs₁ (Ir.byte b') m _
            (ap (λ h. assign regs₁ (r + 1 + 1 + 1) (sum h (Ir.byte count)) m) has_b)
            (λ regs₂ kept₂ has_sum.
              store_data-Leads undefined F rest rest (r + 1 + 1 + 1 + 1) regs₂ m _ small
                (Value.reg (r + 1 + 1 + 1)) b' (put_byte b' m.state)
                (λ regs₃ kept₃. kept₃ (r + 1 + 1 + 1) (omega arith) ∙ has_sum)
                (store-put_byte b' m.state v) (λ regs' _. here-Leads undefined F rest regs' _))))

  pub in_-Leads :
      Leads undefined F
        (Ir.call r (Value.param 1) (Value.param 0 ∷ [])
          ∷ Ir.load (r + 1) Value.slot
          ∷ Ir.gep (r + 1 + 1) Value.array (Value.reg (r + 1))
          ∷ Ir.store (Value.reg r) (Value.reg (r + 1 + 1))
          ∷ rest)
        regs
        m
        (read_byte m)
        rest
  unfolding step read_byte read
  in_-Leads =
      let (b, left_over) = read_exact m.io.input in
      let m₁ : Machine = record {
        state = m.state;
        io = record { input = left_over; output = m.io.output };
      } in
      rw (store-put_byte b m.state v) (
        proceed-Leads undefined F _ _ rest regs _ m m₁ _ refl (
          store_data-Leads undefined F rest rest (r + 1) _ m₁ _ small (Value.reg r) b
            (put_byte b m.state) (λ regs' kept. kept r (omega arith) ∙ put_self regs r (Ir.byte b))
            (store-put_byte b m.state v) (λ regs' _. here-Leads undefined F rest regs' _)))

  pub out-Leads :
      Leads undefined F
        (Ir.load r Value.slot
          ∷ Ir.gep (r + 1) Value.array (Value.reg r)
          ∷ Ir.load (r + 1 + 1) (Value.reg (r + 1))
          ∷ Ir.call (r + 1 + 1 + 1) (Value.param 2) (Value.param 0 ∷ Value.reg (r + 1 + 1) ∷ [])
          ∷ rest)
        regs
        m
        (write_byte m)
        rest
  unfolding step write_byte write
  out-Leads =
      let (b, _, loaded, _) = load_valid m.state v in
      rw loaded (
        load_data-Leads undefined F _ rest r regs m _ small b loaded (λ regs₁ kept₁ has_b.
          proceed-Leads undefined F _ _ rest regs₁ regs₁ m _ _ (ap (write_c regs₁ m) has_b)
            (here-Leads undefined F rest regs₁ _)))
