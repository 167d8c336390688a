-- ===== src/Llvm.antt =====
-- src/llvm: the back end over LLVM. `Compiler` and `Code` are the operations that are emitted, with their
-- checks, where the basic blocks of a loop are its place in a tree; `Graph` has the basic blocks.
pub mod Compiler
pub mod Code
pub mod Checks
pub mod Correct
pub mod Ir
pub mod Wrapper
pub mod Graph
pub mod Entry
pub mod Engine
pub mod Run
use bf_rs.Prelude.{ℕ}
use bf_rs.Tree

-- What is emitted for an instruction. A search for a zero is emitted as a loop.
pub data Op : Type 0 where
  right left : ℕ → Op
  add : ℕ → Op
  in_ out set_zero : Op
  offset_add_right offset_add_left : ℕ → Op

abbrev pub Statement : Type 0
Statement = Tree.Statement Op

abbrev pub Program : Type 0
Program = Tree.Program Op
