-- ===== src/Examples/Parts.antt =====
-- The theorems on the parts, at small data.
use bf_rs.Prelude.{◌≡◌, refl, [], ◌∷◌, length, some, arith}
use bf_rs.Common.{Command, Result}
use bf_rs.Tree.{nil, ◌⨾◌, instr, AllInstr}
use bf_rs.Ast.{IsPlain}
use bf_rs.Ast.Parser.{ok, parse_program}
use bf_rs.Ast.Parser.Tokens.{tokens, balance}
use bf_rs.Ast.Parser.Print.{print}
use bf_rs.Ast.Parser.Correct.{
  error_of, parse_program-balance, parse_program-print, parse_program_of_print,
}
use bf_rs.Rle.{run}
use bf_rs.Rle.Compiler as Encoder
use bf_rs.Rle.Overflow.{copies, compile-overflow}
use bf_rs.Rle.Weight.{weight, weight-compile}
use bf_rs.Bytecode.Compiler as Flattener
use bf_rs.Bytecode.Layout.{flatten, compile-flatten}
use bf_rs.Examples.Programs.{text, tree, nested, parsed}

parse_program-balance_example :
    error_of (parse_program (91 ∷ 93 ∷ 93 ∷ 91 ∷ []))
    ≡ some (balance 0 (tokens (91 ∷ 93 ∷ 93 ∷ 91 ∷ [])))
parse_program-balance_example = parse_program-balance (91 ∷ 93 ∷ 93 ∷ 91 ∷ [])

parse_program-print_example : AllInstr IsPlain tree × (tokens text ≡ print tree)
parse_program-print_example = parse_program-print text tree parsed

text-print : tokens text ≡ print tree
unfolding print
text-print = refl

parse_program_of_print_example : parse_program text ≡ ok tree
parse_program_of_print_example =
    parse_program_of_print tree text (tt, ((tt, (tt, (tt, (tt, tt)))), (tt, (tt, tt)))) text-print

compile-flatten_example : Flattener.compile 10 nested ≡ Result.ok (flatten 0 nested)
compile-flatten_example = compile-flatten 10 nested (omega arith)

weight-compile_example : weight (Encoder.compile 10 tree) ≡ length (print tree)
weight-compile_example = weight-compile 10 tree

not_right : Command.up ≡ Command.right → ⊥
not_right e = cc

compile-overflow_example :
    Encoder.compile 2 (copies 3 Command.up nil)
    ≡ (instr (run Command.up 2) ⨾ instr (run Command.right 1) ⨾ nil)
compile-overflow_example = compile-overflow 1 Command.up not_right
