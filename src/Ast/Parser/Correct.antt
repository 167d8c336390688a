-- ===== src/Ast/Parser/Correct.antt =====
-- src/ast/parser.rs: the parser against printing and against the scan of the brackets.
use bf_rs.Prelude.{
  ℕ, ◌+◌, ◌*◌, ◌≡◌, sym, ap, subst, ◌∙◌, List, [], ◌∷◌, append-nil, length, Option, none, some, inl,
  inr, arith,
}
use bf_rs.Common.{
  Error, unmatched_begin, unmatched_end, pointer_underflow, pointer_overflow, Command,
}
use bf_rs.Tree.{nil, AllInstr}
use bf_rs.Ast.{Program, IsPlain}
use bf_rs.Ast.Parser.{Parsed, ok, err, out_of_fuel, all_of, parse_instructions, parse_program}
use bf_rs.Ast.Parser.Tokens.{tokens, balance}
use bf_rs.Ast.Parser.Print.{print, print-injective, balance-print}
use bf_rs.Ast.Parser.Runs.{ReadsInstructions, parse_instructions-Reads}

abbrev Parses : List Command → Parsed Program → Type 0
Parses ts (ok p) = AllInstr IsPlain p × (ts ≡ print p)
Parses ts (err e) = balance 0 ts ≡ some e
Parses ts out_of_fuel = ⊥

all_of-Parses :
    (n : ℕ) (ts : List Command) (r : Parsed (Program × List ℕ))
    → ReadsInstructions n ts ts r
    → Parses ts (all_of r)
unfolding all_of
all_of-Parses n ts (ok (p, [])) (a, e, s, l) = (a, e ∙ append-nil (print p))
all_of-Parses n ts (ok (p, b ∷ rest)) (a, e, inl z, l) = absurd (cc)
all_of-Parses n ts (ok (p, b ∷ rest)) (a, e, inr (us, t), l) =
    ap (balance 0) e ∙ balance-print 0 p (tokens (b ∷ rest)) a ∙ ap (balance 0) t
all_of-Parses n ts (err unmatched_begin) h = h 0
all_of-Parses n ts (err unmatched_end) h = absurd h
all_of-Parses n ts (err pointer_underflow) h = absurd h
all_of-Parses n ts (err pointer_overflow) h = absurd h
all_of-Parses n ts out_of_fuel h = absurd h

parse_program-Parses : (input : List ℕ) → Parses (tokens input) (parse_program input)
unfolding parse_program print
parse_program-Parses input =
    let fuel = 2 * length input + 2 in
    all_of-Parses (length input) (tokens input) (parse_instructions fuel nil input)
      (parse_instructions-Reads fuel nil input tt (omega arith))

-- The error that a parser returns, if it returns.
abbrev pub error_of : Parsed Program → Option (Option Error)
error_of (ok p) = some none
error_of (err e) = some (some e)
error_of out_of_fuel = none

error_of-Parses :
    (ts : List Command) (r : Parsed Program) → Parses ts r → error_of r ≡ some (balance 0 ts)
error_of-Parses ts (ok p) (a, e) =
    ap some (sym (ap (balance 0) (e ∙ sym (append-nil (print p))) ∙ balance-print 0 p [] a))
error_of-Parses ts (err e) h = ap some (sym h)
error_of-Parses ts out_of_fuel h = absurd h

-- Every input is parsed or refused, and the error is the one that a scan of its brackets from the
-- left finds: a `]` that closes nothing, or else a `[` that stays open at the end.
pub parse_program-balance :
    (input : List ℕ) → error_of (parse_program input) ≡ some (balance 0 (tokens input))
parse_program-balance input =
    error_of-Parses (tokens input) (parse_program input) (parse_program-Parses input)

-- Where an input is parsed, the program prints to the commands that the letters of the input stand
-- for in the language, and has no brackets as instructions.
pub parse_program-print :
    (input : List ℕ) (p : Program)
    → parse_program input ≡ ok p
    → AllInstr IsPlain p × (tokens input ≡ print p)
parse_program-print input p e = subst (Parses (tokens input)) e (parse_program-Parses input)

parsed_is :
    (ts : List Command) (p : Program) (r : Parsed Program)
    → AllInstr IsPlain p
    → ts ≡ print p
    → Parses ts r
    → r ≡ ok p
parsed_is ts p (ok q) a e (b, e') = ap ok (print-injective q p b a (sym e' ∙ e))
parsed_is ts p (err x) a e h =
    let balanced = ap (balance 0) (e ∙ sym (append-nil (print p))) ∙ balance-print 0 p [] a in
    absurd (cc)
parsed_is ts p out_of_fuel a e h = absurd h

-- An input whose letters stand in the language for the commands that a program without brackets as
-- instructions prints to, comments between them or not, is parsed to that program.
pub parse_program_of_print :
    (p : Program) (input : List ℕ)
    → AllInstr IsPlain p
    → tokens input ≡ print p
    → parse_program input ≡ ok p
parse_program_of_print p input a e =
    parsed_is (tokens input) p (parse_program input) a e (parse_program-Parses input)
