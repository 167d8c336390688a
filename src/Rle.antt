-- ===== src/Rle.antt =====
-- src/rle: programs whose instructions are a command and how often it is repeated.
pub mod Compiler
pub mod Repeat
pub mod Runs
pub mod Safety
pub mod Weight
pub mod Overflow
pub mod Correct
pub mod Interpreter
use bf_rs.Prelude.{ℕ, ◌<◌, ◌≤◌}
use bf_rs.Common.{Command}
use bf_rs.Tree
use bf_rs.Ast.{IsPlain}

pub record Run : Type 0 where
  pub command : Command
  pub count : ℕ

abbrev pub run : Command → ℕ → Run
run c n = record { command = c; count = n }

abbrev pub Statement : Type 0
Statement = Tree.Statement Run

abbrev pub Program : Type 0
Program = Tree.Program Run

-- The invariant that src/rle/mod.rs states of `Cmd`, and that of the counts.
pub record IsRun (count_max : ℕ) (r : Run) : Type 0 where
  pub plain : IsPlain r.command
  pub positive : 0 < r.count
  pub bounded : r.count ≤ count_max
