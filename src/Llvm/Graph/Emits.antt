-- ===== src/Llvm/Graph/Emits.antt =====
-- src/llvm/compiler.rs: what a call of a method of `Compiler` adds, and what that does.
pub mod Straight
pub mod Moves
pub mod Loop
pub mod Transfer
use bf_rs.Prelude.{ℕ, ◌≡◌, List, [], ◌∷◌, length}
use bf_rs.Machine.{Machine, Outcome}
use bf_rs.Rts.{underflow, overflow}
use bf_rs.Llvm.Ir
use bf_rs.Llvm.Ir.{Value, Instr, Blocks, Regs}
use bf_rs.Llvm.Wrapper.{Builder}
use bf_rs.Llvm.Graph
use bf_rs.Llvm.Graph.Leads.{Leads}
use bf_rs.Llvm.Graph.Moves.{Fits}
use bf_rs.Llvm.Graph.Grows.{Since, Extends, Tail}

-- The compiler that the prologue makes.
abbrev pub compiler : ℕ → Graph.Compiler
compiler size = record {
  underflow = 1;
  overflow = 2;
  memory_size = Value.word size;
  rts_state = Value.param 0;
  read_function = Value.param 1;
  write_function = Value.param 2;
  memory = Value.array;
  pointer = Value.slot;
}

-- The blocks that the epilogue fills.
pub record HasEnds (F : Blocks) : Type 0 where
  pub after_underflow : List Instr
  pub at_underflow : F 1 ≡ Ir.ret (Value.word underflow) ∷ after_underflow
  pub after_overflow : List Instr
  pub at_overflow : F 2 ≡ Ir.ret (Value.word overflow) ∷ after_overflow

-- Between the places at which the two builders stand, every complete function does what the
-- outcome says.
pub record Emits (undefined : ℕ → ℕ) (size : ℕ) (b b' : Builder) (f : Machine → Outcome)
    : Type 0 where
  pub since : Since b b'
  pub runs :
      (F : Blocks)
      → Extends F b'
      → HasEnds F
      → (code' : List Instr) → Tail F b' code'
      → (code : List Instr) × Tail F b code
        × ((m : Machine) → Fits size m → (regs : Regs) → Leads undefined F code regs m (f m) code')
