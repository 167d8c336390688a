-- ===== src/Peephole.antt =====
-- src/peephole: programs whose instructions are those of src/common.rs, the jumps excepted.
pub mod Extent
pub mod Compiler
pub mod Interpreter
pub mod Drain
pub mod Offset
pub mod Safety
pub mod Size
pub mod Halts
pub mod Fuel
pub mod Rewrites
pub mod Correct
pub mod Transfer
use bf_rs.Common.{Instruction}
use bf_rs.Tree

abbrev pub Statement : Type 0
Statement = Tree.Statement Instruction

abbrev pub Program : Type 0
Program = Tree.Program Instruction

-- The invariant that src/peephole/mod.rs states of `Instr`.
abbrev pub IsStraight : Instruction → Type 0
IsStraight (Instruction.jump_zero _) = ⊥
IsStraight (Instruction.jump_not_zero _) = ⊥
IsStraight _ = Unit
