-- ===== src/Pipeline/Correct.antt =====
-- src/lib.rs: the passes and the unoptimized tree of a parsed program.
use bf_rs.Prelude.{
  ℕ, suc, ◌+◌, ◌≤◌, ◌≡◌, ◌≢◌, sym, subst, ◌∙◌, List, [], ◌∷◌, length, length-append, Option, none,
  some, arith,
}
use bf_rs.Common
use bf_rs.Common.{Command, end, Result}
use bf_rs.Common.Laws.{Yields, Yields-bind, Yields-map}
use bf_rs.State.Valid.{isize_max}
use bf_rs.Machine.{Machine, out_of_fuel}
use bf_rs.Machine.Laws.{IsValidMachine}
use bf_rs.Tree.{nil, ◌⨾◌, instr, loop, AllInstr, size, size_statement}
use bf_rs.Ast
use bf_rs.Ast.{IsPlain}
use bf_rs.Ast.Interpreter as Plain
use bf_rs.Ast.Parser.{ok, parse_program}
use bf_rs.Ast.Parser.Tokens.{meant, keep, tokens}
use bf_rs.Ast.Parser.Print.{print, print_statement}
use bf_rs.Ast.Parser.Correct.{parse_program-print}
use bf_rs.Rle.Compiler as Encoder
use bf_rs.Rle.Interpreter as Runs
use bf_rs.Rle.Runs.{compile-IsRun_size}
use bf_rs.Rle.Correct.{interpret-compile_runs}
use bf_rs.Rle.Weight.{weight, weight-compile}
use bf_rs.Peephole
use bf_rs.Peephole.{IsStraight}
use bf_rs.Tree.Laws.{AllInstr-map}
use bf_rs.Peephole.Interpreter as Nested
use bf_rs.Peephole.Compiler as Optimizer
use bf_rs.Peephole.Safety.{IsFine}
use bf_rs.Peephole.Correct.{compile-IsFine, interpret-compile_peephole}
use bf_rs.Bytecode.Interpreter as Flat
use bf_rs.Bytecode.Compiler as Flattener
use bf_rs.Bytecode.Layout.{width}
use bf_rs.Bytecode.Size.{compile-width}
use bf_rs.Bytecode.Correct.{interpret-compile_bytecode}
use bf_rs.Pipeline.{rle_compile, peephole_compile, bytecode_compile}

length-keep : (o : Option Command) (ts : List Command) → length (keep o ts) ≤ 1 + length ts
length-keep none ts = omega arith
length-keep (some c) ts = omega arith

length-tokens : (input : List ℕ) → length (tokens input) ≤ length input
length-tokens [] = omega arith
length-tokens (c ∷ input) = omega (arith, length-keep (meant c) (tokens input), length-tokens input)

mutual
  unfolding print

  size-program : (p : Ast.Program) → size p ≤ length (print p)
  size-program nil = omega arith
  size-program (s ⨾ p) =
      omega (arith, size-statement s, size-program p, length-append (print_statement s) (print p))

  size-statement : (s : Ast.Statement) → size_statement s ≤ length (print_statement s)
  size-statement (instr c) = omega arith
  size-statement (loop body) =
      omega (arith, size-program body, length-append (print body) (end ∷ []))

IsFine-IsStraight : (i : Common.Instruction) → IsFine i → IsStraight i
IsFine-IsStraight (Common.Instruction.jump_zero _) f = absurd f
IsFine-IsStraight (Common.Instruction.jump_not_zero _) f = absurd f
IsFine-IsStraight (Common.Instruction.left _) f = tt
IsFine-IsStraight (Common.Instruction.right _) f = tt
IsFine-IsStraight (Common.Instruction.add _) f = tt
IsFine-IsStraight Common.Instruction.in_ f = tt
IsFine-IsStraight Common.Instruction.out f = tt
IsFine-IsStraight Common.Instruction.set_zero f = tt
IsFine-IsStraight (Common.Instruction.offset_add_right _) f = tt
IsFine-IsStraight (Common.Instruction.offset_add_left _) f = tt
IsFine-IsStraight (Common.Instruction.find_zero_right _) f = tt
IsFine-IsStraight (Common.Instruction.find_zero_left _) f = tt

-- What the passes need to know of a program that was parsed from `n` bytes.
pub record IsParsed (n : ℕ) (p : Ast.Program) : Type 0 where
  pub plain : AllInstr IsPlain p
  pub small : size p ≤ n
  pub short : length (print p) ≤ n

pub parse_program-IsParsed :
    (text : List ℕ) (p : Ast.Program) → parse_program text ≡ ok p → IsParsed (length text) p
parse_program-IsParsed text p e =
    let (a, t) = parse_program-print text p e in
    let short : length (print p) ≤ length text =
      subst (λ ts. length ts ≤ length text) t (length-tokens text) in
    record { plain = a; small = omega (arith, size-program p); short = short }

pub Yields-both {ℓ} :
    {A : Type ℓ} (P Q : A → Type 0) (r : Result A)
    → Yields P r
    → Yields Q r
    → Yields (λ a. P a × Q a) r
Yields-both P Q (Common.Result.ok a) h k = (h, k)
Yields-both P Q (Common.Result.err e) h k = h
Yields-both P Q Common.Result.panic h k = h

-- The run-length encoding of a program parsed from a text no longer than the largest slice and
-- the largest `Count` has, from a valid machine, the outcome of the program.
pub interpret-rle_compile :
    (fuel count_max : ℕ) (text : List ℕ) (p : Ast.Program) (m : Machine)
    → parse_program text ≡ ok p
    → length text ≤ isize_max
    → length text ≤ count_max
    → IsValidMachine m
    → Runs.interpret fuel (rle_compile count_max p) m ≡ Plain.interpret fuel p m
unfolding rle_compile
interpret-rle_compile fuel count_max text p m e h k v =
    let i = parse_program-IsParsed text p e in
    interpret-compile_runs fuel count_max p m v i.plain (omega (arith, i.small))
      (omega (arith, i.small))

-- A program parsed from a text no longer than the largest slice and the largest `Count` is
-- optimized without panic, and from a valid machine, with at least 256 rounds for each loop, the
-- optimized program has its outcome.
pub interpret-peephole_compile :
    (fuel count_max : ℕ) (text : List ℕ) (p : Ast.Program) (m : Machine)
    → 256 ≤ fuel
    → parse_program text ≡ ok p
    → length text ≤ isize_max
    → length text ≤ count_max
    → IsValidMachine m
    → Yields
        (λ q. Nested.interpret fuel q m ≡ Plain.interpret fuel p m)
        (peephole_compile count_max p)
unfolding peephole_compile rle_compile
interpret-peephole_compile fuel count_max text p m f e h k v =
    let i = parse_program-IsParsed text p e in
    let runs =
      compile-IsRun_size count_max isize_max p (omega arith) (omega (arith, i.small)) i.plain in
    let r = Encoder.compile count_max p in
    Yields-map (λ q g. g ∙ interpret-rle_compile fuel count_max text p m e h k v)
      (Optimizer.compile r) (interpret-compile_peephole fuel r m f v runs)

-- Take a program parsed from a text no longer than the largest slice and the largest `Count`,
-- that from a valid machine does not want for fuel, with at least 256 rounds for each loop. It is
-- flattened without panic, and from some number of rounds on the flat code has its outcome.
pub interpret-bytecode_compile :
    (fuel count_max : ℕ) (text : List ℕ) (p : Ast.Program) (m : Machine)
    → 256 ≤ fuel
    → parse_program text ≡ ok p
    → length text ≤ isize_max
    → length text ≤ count_max
    → IsValidMachine m
    → Plain.interpret fuel p m ≢ out_of_fuel
    → Yields
        (λ code.
          (n : ℕ) × ((k : ℕ) → Flat.interpret fuel (n + suc k) code m ≡ Plain.interpret fuel p m))
        (bytecode_compile count_max p)
unfolding bytecode_compile peephole_compile rle_compile
interpret-bytecode_compile fuel count_max text p m f e h k v t =
    let i = parse_program-IsParsed text p e in
    let runs =
      compile-IsRun_size count_max isize_max p (omega arith) (omega (arith, i.small)) i.plain in
    let r = Encoder.compile count_max p in
    let IsSmall = λ (q : Peephole.Program). width q ≤ weight r in
    let Agrees = λ (q : Peephole.Program). Nested.interpret fuel q m ≡ Plain.interpret fuel p m in
    let known =
      Yields-both (λ q. AllInstr IsFine q × IsSmall q) Agrees (Optimizer.compile r)
        (Yields-both (AllInstr IsFine) IsSmall (Optimizer.compile r) (compile-IsFine r runs)
          (compile-width isize_max r runs))
        (interpret-peephole_compile fuel count_max text p m f e h k v) in
    Yields-bind _ (Optimizer.compile r) (Flattener.compile count_max) known (λ q g.
      Yields-map (λ code (n, e'). (n, λ j. e' j ∙ g.1)) (Flattener.compile count_max q)
        (interpret-compile_bytecode fuel count_max q m
          (omega (arith, g.0.1, weight-compile count_max p, i.short))
          (AllInstr-map IsFine IsStraight IsFine-IsStraight q g.0.0) (λ x. t (sym g.1 ∙ x))))
