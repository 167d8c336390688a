-- ===== src/Bytecode.antt =====
-- src/bytecode: programs are flat sequences of instructions.
pub mod Compiler
pub mod Interpreter
pub mod Layout
pub mod Steps
pub mod Size
pub mod Correct
pub mod Converse
pub mod Fuel
use bf_rs.Prelude.{List}
use bf_rs.Common.{Instruction}

abbrev pub Program : Type 0
Program = List Instruction
