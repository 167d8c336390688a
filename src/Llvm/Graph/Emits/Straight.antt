-- ===== src/Llvm/Graph/Emits/Straight.antt =====
-- src/llvm/compiler.rs: the instructions that stay in one block, and the two moves.
use bf_rs.Prelude.{ℕ, ◌+◌, List, [], ◌∷◌, ◌++◌}
use bf_rs.State
use bf_rs.State.{store}
use bf_rs.Machine.{Machine, Outcome, on_state, read_byte, write_byte}
use bf_rs.Llvm.Ir
use bf_rs.Llvm.Ir.{Value, Instr, Blocks, Regs}
use bf_rs.Llvm.Wrapper.{Builder}
use bf_rs.Llvm.Graph
use bf_rs.Llvm.Graph.Leads.{Leads}
use bf_rs.Llvm.Graph.Ops.{set_zero-Leads, add-Leads, in_-Leads, out-Leads}
use bf_rs.Llvm.Graph.Moves.{Fits}
use bf_rs.Llvm.Graph.Grows.{insert_all, IsFresh, Since-refl, insert_all-Since, insert_all-Tail}
use bf_rs.Llvm.Graph.Emits.{compiler, Emits}

module _ (undefined : ℕ → ℕ) (size : ℕ) (b : Builder) (fresh : IsFresh b) where
  insert_all-Emits :
      (is : List Instr) (n : ℕ) (f : Machine → Outcome)
      → ((F : Blocks) (rest : List Instr) (m : Machine)
          → Fits size m
          → (regs : Regs) → Leads undefined F (is ++ rest) regs m (f m) rest)
      → Emits undefined size b (record (insert_all is b) { next = n }) f
  insert_all-Emits is n f k = record {
    since = insert_all-Since is n b b (Since-refl b fresh);
    runs = λ F extends ends code' t.
        (is ++ code', insert_all-Tail F is b code' t, λ m h regs. k F code' m h regs);
  }

  pub set_zero-Emits :
      Emits undefined size b (Graph.set_zero (compiler size) b).1 (on_state (store 0))
  set_zero-Emits =
      let r = b.next in
      insert_all-Emits
        (Ir.load r Value.slot
          ∷ Ir.gep (r + 1) Value.array (Value.reg r)
          ∷ Ir.store (Value.byte 0) (Value.reg (r + 1))
          ∷ [])
        (r + 1 + 1) (on_state (store 0))
        (λ F rest m h regs. set_zero-Leads undefined F rest r regs m h.0.valid)

  pub add-Emits :
      (count : ℕ)
      → Emits undefined size b (Graph.add (compiler size) count b).1 (on_state (State.up count))
  add-Emits count =
      let r = b.next in
      insert_all-Emits
        (Ir.load r Value.slot
          ∷ Ir.gep (r + 1) Value.array (Value.reg r)
          ∷ Ir.load (r + 1 + 1) (Value.reg (r + 1))
          ∷ Ir.add (r + 1 + 1 + 1) (Value.reg (r + 1 + 1)) (Value.byte count)
          ∷ Ir.load (r + 1 + 1 + 1 + 1) Value.slot
          ∷ Ir.gep (r + 1 + 1 + 1 + 1 + 1) Value.array (Value.reg (r + 1 + 1 + 1 + 1))
          ∷ Ir.store (Value.reg (r + 1 + 1 + 1)) (Value.reg (r + 1 + 1 + 1 + 1 + 1))
          ∷ [])
        (r + 1 + 1 + 1 + 1 + 1 + 1) (on_state (State.up count))
        (λ F rest m h regs. add-Leads undefined F rest r regs m h.0.valid count)

  pub in_-Emits : Emits undefined size b (Graph.in_ (compiler size) b).1 read_byte
  in_-Emits =
      let r = b.next in
      insert_all-Emits
        (Ir.call r (Value.param 1) (Value.param 0 ∷ [])
          ∷ Ir.load (r + 1) Value.slot
          ∷ Ir.gep (r + 1 + 1) Value.array (Value.reg (r + 1))
          ∷ Ir.store (Value.reg r) (Value.reg (r + 1 + 1))
          ∷ [])
        (r + 1 + 1 + 1) read_byte (λ F rest m h regs. in_-Leads undefined F rest r regs m h.0.valid)

  pub out-Emits : Emits undefined size b (Graph.out (compiler size) b).1 write_byte
  out-Emits =
      let r = b.next in
      insert_all-Emits
        (Ir.load r Value.slot
          ∷ Ir.gep (r + 1) Value.array (Value.reg r)
          ∷ Ir.load (r + 1 + 1) (Value.reg (r + 1))
          ∷ Ir.call (r + 1 + 1 + 1) (Value.param 2) (Value.param 0 ∷ Value.reg (r + 1 + 1) ∷ [])
          ∷ [])
        (r + 1 + 1 + 1 + 1) write_byte
        (λ F rest m h regs. out-Leads undefined F rest r regs m h.0.valid)
