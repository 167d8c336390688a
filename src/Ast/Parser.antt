-- ===== src/Ast/Parser.antt =====
-- src/ast/parser.rs. The input is a list of bytes; a parser runs on fuel, which `parse_program`
-- chooses.
pub mod Tokens
pub mod Print
pub mod Runs
pub mod Correct
use bf_rs.Prelude.{
  ℕ, zero, suc, ◌+◌, ◌*◌, List, [], ◌∷◌, length, Option, none, some, ◌==◌, if◌then◌else◌,
}
use bf_rs.Common.{
  Error, unmatched_begin, unmatched_end, pointer_underflow, pointer_overflow, Command, right, left,
  up, down, in_, out, begin, end,
}
use bf_rs.Tree.{nil, instr, loop, push}
use bf_rs.Ast.{Statement, Program}

pub data Parsed {ℓ} (A : Type ℓ) : Type ℓ where
  ok : A → Parsed A
  err : Error → Parsed A
  out_of_fuel : Parsed A

-- The bytes that the parser's `match` names: `<` `>` `+` `-` `,` `.` `]` `[`.
unfoldable pub command_of : ℕ → Option Command
command_of c =
    if c == 60
    then some left
    else if c == 62
    then some right
    else if c == 43
    then some up
    else if c == 45
    then some down
    else if c == 44
    then some in_
    else if c == 46
    then some out
    else if c == 93
    then some end
    else if c == 91
    then some begin
    else none

-- The loop behind the body of a `[`: it looks for the `]`.
unfoldable pub find_end : Program → List ℕ → Parsed (Option Statement × List ℕ)
find_end program [] = err unmatched_begin
find_end program (c ∷ next_input) =
    if c == 93 then ok (some (loop program), next_input) else find_end program next_input

-- `match parse_instructions(input)`.
unfoldable pub close : Parsed (Program × List ℕ) → Parsed (Option Statement × List ℕ)
unfolding find_end
close (ok (program, next_input)) = find_end program next_input
close (err e) = err e
close out_of_fuel = out_of_fuel

-- `match c`: a comment is passed over by `again`, and `body` parses what follows a `[`.
unfoldable pub on_command :
    (List ℕ → Parsed (Option Statement × List ℕ))
    → (List ℕ → Parsed (Program × List ℕ))
    → List ℕ
    → Option Command
    → Parsed (Option Statement × List ℕ)
unfolding close
on_command again body input none = again input
on_command again body input (some begin) = close (body input)
on_command again body input (some end) = err unmatched_end
on_command again body input (some left) = ok (some (instr left), input)
on_command again body input (some right) = ok (some (instr right), input)
on_command again body input (some up) = ok (some (instr up), input)
on_command again body input (some down) = ok (some (instr down), input)
on_command again body input (some in_) = ok (some (instr in_), input)
on_command again body input (some out) = ok (some (instr out), input)

-- `match parse_instruction(input)`: any error but `UnmatchedBegin` ends the sequence in front of
-- the instruction that has it.
unfoldable pub on_instruction :
    (Program → List ℕ → Parsed (Program × List ℕ))
    → Program
    → List ℕ
    → Parsed (Option Statement × List ℕ)
    → Parsed (Program × List ℕ)
on_instruction again instructions input (ok (some i, next_input)) =
    again (push instructions i) next_input
on_instruction again instructions input (ok (none, next_input)) = ok (instructions, next_input)
on_instruction again instructions input (err unmatched_begin) = err unmatched_begin
on_instruction again instructions input (err unmatched_end) = ok (instructions, input)
on_instruction again instructions input (err pointer_underflow) = ok (instructions, input)
on_instruction again instructions input (err pointer_overflow) = ok (instructions, input)
on_instruction again instructions input out_of_fuel = out_of_fuel

-- `parse_instruction`, and the loop of `parse_instructions` with the vector that it fills.
unfoldable mutual
  unfolding command_of on_command on_instruction

  pub parse_instruction : ℕ → List ℕ → Parsed (Option Statement × List ℕ)
  parse_instruction zero input = out_of_fuel
  parse_instruction (suc fuel) [] = ok (none, [])
  parse_instruction (suc fuel) (c ∷ input) =
      on_command (parse_instruction fuel) (parse_instructions fuel nil) input (command_of c)

  pub parse_instructions : ℕ → Program → List ℕ → Parsed (Program × List ℕ)
  parse_instructions zero instructions input = out_of_fuel
  parse_instructions (suc fuel) instructions input =
      on_instruction (parse_instructions fuel) instructions input (parse_instruction fuel input)

-- The program is all there is, `if rest.is_empty()`.
unfoldable pub all_of : Parsed (Program × List ℕ) → Parsed Program
all_of (ok (program, [])) = ok program
all_of (ok (program, _ ∷ _)) = err unmatched_end
all_of (err e) = err e
all_of out_of_fuel = out_of_fuel

unfoldable pub parse_program : List ℕ → Parsed Program
unfolding parse_instructions all_of
parse_program input = all_of (parse_instructions (2 * length input + 2) nil input)
