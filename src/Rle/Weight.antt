-- ===== src/Rle/Weight.antt =====
-- src/rle/compiler.rs: how many commands the runs have.
use bf_rs.Prelude.{
  ℕ, ◌+◌, ◌≡◌, refl, ◌∙◌, [], ◌∷◌, length, length-append, Bool-cases, inl, inr, ltb, arith,
}
use bf_rs.Common.{Command, end}
use bf_rs.Tree.{nil, ◌⨾◌, ◌⧺◌, instr, loop, push}
use bf_rs.Ast
use bf_rs.Ast.Parser.Print.{print, print_statement}
use bf_rs.Rle.{Statement, Program, run}
use bf_rs.Rle.Compiler.{
  Compiler, ◌==◌, new, push_op, checked_add, repeat_or_push, issue_op, issue_loop, into_program,
  compile_into, compile_statement, compile,
}

-- The number of commands, the two brackets of each loop included.
abbrev mutual
  pub weight : Program → ℕ
  weight nil = 0
  weight (s ⨾ p) = weight_statement s + weight p

  pub weight_statement : Statement → ℕ
  weight_statement (instr r) = r.count
  weight_statement (loop body) = 2 + weight body

weight-push : (p : Program) (s : Statement) → weight (push p s) ≡ weight p + weight_statement s
unfolding push ◌⧺◌
weight-push nil s = omega arith
weight-push (s' ⨾ p) s = omega (arith, weight-push p s)

-- What a compiler has issued, and what it still holds back.
abbrev total : Compiler → ℕ
total c = weight c.instructions + c.last_repeat

push_op-total :
    (c : Compiler) → (weight (push_op c).instructions ≡ total c) × ((push_op c).last_repeat ≡ 0)
unfolding push_op
push_op-total c = elim (Bool-cases (ltb 0 c.last_repeat)) [
  | inl h ↦ rw h (weight-push c.instructions (instr (run c.last_command c.last_repeat)), refl)
  | inr h ↦ rw h (ground arith)
]

repeat_or_push-total :
    (count_max : ℕ) (c : Compiler)
    → total (repeat_or_push c (checked_add count_max c.last_repeat)) ≡ total c + 1
unfolding repeat_or_push checked_add
repeat_or_push-total count_max c = elim (Bool-cases (ltb c.last_repeat count_max)) [
  | inl l ↦ rw l (omega arith)
  | inr l ↦ let (e, z) = push_op-total c in rw l (omega arith)
]

issue_op-total :
    (count_max : ℕ) (cmd : Command) (c : Compiler) → total (issue_op count_max cmd c) ≡ total c + 1
unfolding issue_op
issue_op-total count_max cmd c = elim (Bool-cases (cmd == c.last_command)) [
  | inl e ↦ rw (issue_op, e) (repeat_or_push-total count_max c)
  | inr e ↦ let (e', z) = push_op-total c in rw (issue_op, e) (omega arith)
]

issue_loop-total :
    (body : Program) (c : Compiler) → total (issue_loop body c) ≡ total c + (2 + weight body)
unfolding issue_loop
issue_loop-total body c =
    let (e, z) = push_op-total c in omega (arith, weight-push (push_op c).instructions (loop body))

into_program-weight : (c : Compiler) → weight (into_program c) ≡ total c
unfolding into_program
into_program-weight c = (push_op-total c).0

new-total : total new ≡ 0
unfolding new
new-total = refl

module _ (count_max : ℕ) where
  mutual
    unfolding compile_into print

    compile_into-total :
        (p : Ast.Program) (c : Compiler)
        → total (compile_into count_max p c) ≡ total c + length (print p)
    compile_into-total nil c = omega arith
    compile_into-total (s ⨾ p) c =
        compile_into-total p (compile_statement count_max s c)
        ∙ omega (arith, compile_statement-total s c, length-append (print_statement s) (print p))

    compile_statement-total :
        (s : Ast.Statement) (c : Compiler)
        → total (compile_statement count_max s c) ≡ total c + length (print_statement s)
    compile_statement-total (instr cmd) c = issue_op-total count_max cmd c
    compile_statement-total (loop body) c =
        let d = compile_into count_max body new in
        issue_loop-total (into_program d) c
        ∙ omega (
          arith,
          into_program-weight d,
          compile_into-total body new,
          new-total,
          length-append (print body) (end ∷ []),
        )

-- The runs of a compiled program have as many commands together as the program, whatever the
-- largest count is.
pub weight-compile :
    (count_max : ℕ) (p : Ast.Program) → weight (compile count_max p) ≡ length (print p)
unfolding compile new
weight-compile count_max p =
    into_program-weight (compile_into count_max p new)
    ∙ compile_into-total count_max p new
    ∙ omega arith
