-- ===== src/Examples/Programs.antt =====
-- The program `+[>+<-]>.` with a comment, in every form that the passes give it.
use bf_rs.Prelude.{ℕ, ◌≡◌, ◌≢◌, refl, List, [], ◌∷◌, arith}
use bf_rs.Common.{Command, Instruction}
use bf_rs.State
use bf_rs.State.Valid.{with_capacity-IsValid}
use bf_rs.Machine.{Machine, done, out_of_fuel, on_state}
use bf_rs.Machine
use bf_rs.Machine.Laws.{IsValidMachine}
use bf_rs.Tree.{nil, ◌⨾◌, instr, loop}
use bf_rs.Tree
use bf_rs.Ast
use bf_rs.Ast.Interpreter as Plain
use bf_rs.Ast.Parser.{ok, parse_program}
use bf_rs.Ast.Parser
use bf_rs.Rle
use bf_rs.Rle.{run}
use bf_rs.Peephole
use bf_rs.Cranelift.{Host, win64}

-- A host that calls by win64. Where it would misplace arguments, nothing is read or written.
abbrev pub windows : Host
windows = record {
  mem_start = 4096;
  default_call_conv = win64;
  misplaced_read = done;
  misplaced_write = done;
}

abbrev pub text : List ℕ
text = 43 ∷ 91 ∷ 62 ∷ 43 ∷ 32 ∷ 60 ∷ 45 ∷ 93 ∷ 62 ∷ 46 ∷ []

abbrev pub tree : Ast.Program
tree =
    instr Command.up
    ⨾ loop (instr Command.right ⨾ instr Command.up ⨾ instr Command.left ⨾ instr Command.down ⨾ nil)
    ⨾ instr Command.right
    ⨾ instr Command.out
    ⨾ nil

abbrev pub runs : Rle.Program
runs =
    instr (run Command.up 1)
    ⨾ loop (
        instr (run Command.right 1)
        ⨾ instr (run Command.up 1)
        ⨾ instr (run Command.left 1)
        ⨾ instr (run Command.down 1)
        ⨾ nil)
    ⨾ instr (run Command.right 1)
    ⨾ instr (run Command.out 1)
    ⨾ nil

abbrev pub nested : Peephole.Program
nested =
    instr (Instruction.add 1)
    ⨾ loop (
        instr (Instruction.right 1)
        ⨾ instr (Instruction.add 1)
        ⨾ instr (Instruction.left 1)
        ⨾ instr (Instruction.add 255)
        ⨾ nil)
    ⨾ instr (Instruction.right 1)
    ⨾ instr Instruction.out
    ⨾ nil

pub parsed : parse_program text ≡ ok tree
unfolding parse_program Parser.command_of Parser.on_command Parser.on_instruction Parser.close
    Parser.find_end Parser.all_of Tree.push Tree.◌⧺◌
parsed = refl

abbrev pub machine : Machine
machine = record {
  state = record { memory = 0 ∷ 0 ∷ 0 ∷ 0 ∷ []; pointer = 0 };
  io = record { input = []; output = [] };
}

pub machine-IsValidMachine : IsValidMachine machine
unfolding State.with_capacity
machine-IsValidMachine = record {
  valid = with_capacity-IsValid 4 (omega arith) (omega arith);
  input_bytes = tt;
}

pub tree-done : Plain.interpret 256 tree machine ≢ out_of_fuel
unfolding Plain.interpret Tree.interpret Plain.interpret_command Machine.while_nonzero
    Machine.write_byte State.left State.right State.up State.down State.write State.load State.index
    State.modify
tree-done e = cc

pub nested-done : Peephole.Interpreter.interpret 256 nested machine ≢ out_of_fuel
unfolding Peephole.Interpreter.interpret Peephole.Interpreter.exec Tree.interpret
    Machine.while_nonzero Machine.write_byte State.left State.right State.up State.write State.load
    State.index State.modify
nested-done e = cc
