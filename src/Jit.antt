-- ===== src/Jit.antt =====
-- src/jit: the native back end, as far as its own code goes. The machine instructions that the
-- assembler encodes are the operations of `Code`, with their checks.
pub mod LoopBalance
pub mod Analysis
pub mod Constant
pub mod Code
pub mod Compiler
pub mod Moves
pub mod Balance
pub mod Checks
pub mod Marks
pub mod Emit
pub mod Correct
pub mod Unchecked
use bf_rs.Prelude.{ℕ, Bool}
use bf_rs.Tree

-- What is emitted for an instruction. The Boolean says whether a bounds check is.
pub data Op : Type 0 where
  right left : ℕ → Bool → Op
  add : ℕ → Op
  in_ out set_zero : Op
  find_zero_right find_zero_left : ℕ → Bool → Op
  offset_add_right offset_add_left : ℕ → Bool → Op

abbrev pub Statement : Type 0
Statement = Tree.Statement Op

abbrev pub Program : Type 0
Program = Tree.Program Op
