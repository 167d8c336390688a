-- ===== src/Ast/Safety.antt =====
-- src/ast/interpreter.rs: panics of the unoptimized tree.
use bf_rs.Prelude.{ℕ, List, ◌≡◌}
use bf_rs.Common.{Command, right, left, up, down, in_, out, begin, end}
use bf_rs.State
use bf_rs.State.Valid.{left-Returns, right-Returns, up-Returns, down-Returns}
use bf_rs.Machine.{Machine}
use bf_rs.Machine.Laws.{
  IsValidMachine, Post, Preserves, on_state-Preserves, read_byte-Preserves, write_byte-Preserves,
}
use bf_rs.Tree
use bf_rs.Tree.Laws
use bf_rs.Ast.{Program, IsPlain}
use bf_rs.Ast.Interpreter.{interpret_command, exec, interpret}
use bf_rs.Ast.Parser.{ok, parse_program}
use bf_rs.Ast.Parser.Correct.{parse_program-print}

pub command-Preserves : (c : Command) → IsPlain c → Preserves (interpret_command c)
unfolding interpret_command
command-Preserves right p m v =
    on_state-Preserves (State.right 1) m v (right-Returns m.state v.valid 1)
command-Preserves left p m v =
    on_state-Preserves (State.left 1) m v (left-Returns m.state v.valid 1)
command-Preserves up p m v = on_state-Preserves (State.up 1) m v (up-Returns m.state v.valid 1)
command-Preserves down p m v =
    on_state-Preserves (State.down 1) m v (down-Returns m.state v.valid 1)
command-Preserves in_ p m v = read_byte-Preserves m v
command-Preserves out p m v = write_byte-Preserves m v
command-Preserves begin p m v = absurd p
command-Preserves end p m v = absurd p

-- From a valid machine a parsed program never panics; where it ends, the machine is valid.
pub parsed-IsValidMachine :
    (fuel : ℕ) (text : List ℕ) (p : Program) (m : Machine)
    → parse_program text ≡ ok p
    → IsValidMachine m
    → Post IsValidMachine (interpret fuel p m)
unfolding interpret
parsed-IsValidMachine fuel text p m e v =
    Tree.Laws.interpret-Preserves exec fuel IsPlain command-Preserves p
      (parse_program-print text p e).0 m v
