-- ===== src/Rle/Safety.antt =====
-- src/rle/interpreter.rs: panics of programs of runs.
use bf_rs.Prelude.{ℕ, zero, suc, ◌%◌}
use bf_rs.Common.{Command, right, left, up, down, in_, out, begin, end}
use bf_rs.State
use bf_rs.State.{byte_mod}
use bf_rs.State.Valid.{left-Returns, right-Returns, up-Returns, down-Returns}
use bf_rs.Machine.{Machine, Outcome, read_byte, write_byte}
use bf_rs.Machine.Laws.{
  IsValidMachine, Preserves, on_state-Preserves, read_byte-Preserves, write_byte-Preserves,
  Post-bind,
}
use bf_rs.Tree
use bf_rs.Tree.{nil, ◌⨾◌, instr, loop, push, AllInstr, AllStatement, size, size_statement}
use bf_rs.Tree.Laws
use bf_rs.Ast.{IsPlain}
use bf_rs.Rle.{IsRun, Program}
use bf_rs.Rle.Interpreter.{repeat, interpret_command, exec, interpret}

repeat-Preserves : (n : ℕ) (body : Machine → Outcome) → Preserves body → Preserves (repeat n body)
unfolding repeat
repeat-Preserves zero body h m v = v
repeat-Preserves (suc n) body h m v =
    Post-bind IsValidMachine (body m) _ (h m v) (repeat-Preserves n body h)

command-Preserves : (c : Command) (n : ℕ) → IsPlain c → Preserves (interpret_command c n)
unfolding interpret_command
command-Preserves right n p m v =
    on_state-Preserves (State.right n) m v (right-Returns m.state v.valid n)
command-Preserves left n p m v =
    on_state-Preserves (State.left n) m v (left-Returns m.state v.valid n)
command-Preserves up n p m v =
    on_state-Preserves (State.up (n % byte_mod)) m v (up-Returns m.state v.valid (n % byte_mod))
command-Preserves down n p m v =
    on_state-Preserves (State.down (n % byte_mod)) m v (down-Returns m.state v.valid (n % byte_mod))
command-Preserves in_ n p m v = repeat-Preserves n read_byte read_byte-Preserves m v
command-Preserves out n p m v = repeat-Preserves n write_byte write_byte-Preserves m v
command-Preserves begin n p m v = absurd p
command-Preserves end n p m v = absurd p

-- Runs keep machines valid, and panic nowhere.
pub interpret-Preserves :
    (fuel bound : ℕ) (p : Program) → AllInstr (IsRun bound) p → Preserves (interpret fuel p)
unfolding interpret
interpret-Preserves fuel bound =
    Tree.Laws.interpret-Preserves exec fuel (IsRun bound)
      (λ r h. command-Preserves r.command r.count h.plain)
