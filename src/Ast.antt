-- ===== src/Ast.antt =====
-- src/ast: the unoptimized programs, whose instructions are the commands.
pub mod Interpreter
pub mod Safety
pub mod Parser
use bf_rs.Common.{Command}
use bf_rs.Tree

abbrev pub Statement : Type 0
Statement = Tree.Statement Command

abbrev pub Program : Type 0
Program = Tree.Program Command

-- The invariant that src/ast/mod.rs states of `Cmd`.
abbrev pub IsPlain : Command → Type 0
IsPlain Command.begin = ⊥
IsPlain Command.end = ⊥
IsPlain _ = Unit
