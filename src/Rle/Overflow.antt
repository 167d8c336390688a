-- ===== src/Rle/Overflow.antt =====
-- src/rle/compiler.rs: what becomes of a run that is longer than a `Count` counts.
use bf_rs.Prelude.{
  ℕ, zero, suc, ◌+◌, ◌<◌, ◌≤◌, ◌≡◌, ◌≢◌, refl, ap, ◌∙◌, true, false, lt→ltb, ge→ltb, arith,
}
use bf_rs.Common.{Command, right, left, up, down, in_, out, begin, end}
use bf_rs.Tree
use bf_rs.Tree.{nil, ◌⨾◌, instr, push}
use bf_rs.Ast
use bf_rs.Rle.{Program, run}
use bf_rs.Rle.Compiler.{
  Compiler, ◌==◌, new, push_op, checked_add, repeat_or_push, issue_op, into_program, compile_into,
  compile,
}

-- `n` times the command, and then `rest`.
abbrev pub copies : ℕ → Command → Ast.Program → Ast.Program
copies zero c rest = rest
copies (suc n) c rest = instr c ⨾ copies n c rest

==-same : (c : Command) → (c == c) ≡ true
unfolding ◌==◌
==-same right = refl
==-same left = refl
==-same up = refl
==-same down = refl
==-same in_ = refl
==-same out = refl
==-same begin = refl
==-same end = refl

==-right : (c : Command) → c ≢ right → (c == right) ≡ false
unfolding ◌==◌
==-right right h = absurd (h refl)
==-right left h = refl
==-right up h = refl
==-right down h = refl
==-right in_ h = refl
==-right out h = refl
==-right begin h = refl
==-right end h = refl

abbrev counting : Program → Command → ℕ → Compiler
counting code c n = record { instructions = code; last_command = c; last_repeat = n }

issue_op-counting :
    (count_max n : ℕ) (c : Command) (code : Program)
    → n < count_max
    → issue_op count_max c (counting code c n) ≡ counting code c (n + 1)
unfolding issue_op checked_add repeat_or_push
issue_op-counting count_max n c code h = rw (==-same c, lt→ltb n count_max h) refl

issue_op-overflow :
    (count_max : ℕ) (c : Command)
    → 0 < count_max
    → issue_op count_max c (counting nil c count_max)
      ≡ counting (instr (run c count_max) ⨾ nil) right 1
unfolding issue_op checked_add repeat_or_push push_op push Tree.◌⧺◌
issue_op-overflow count_max c h =
    rw (==-same c, ge→ltb count_max count_max (omega arith), lt→ltb 0 count_max h) refl

compile_into-copies :
    (count_max n k : ℕ) (c : Command) (code : Program) (rest : Ast.Program)
    → n + k ≤ count_max
    → compile_into count_max (copies k c rest) (counting code c n)
      ≡ compile_into count_max rest (counting code c (n + k))
unfolding compile_into
compile_into-copies count_max n zero c code rest h =
    ap (λ x. compile_into count_max rest (counting code c x)) (omega arith)
compile_into-copies count_max n (suc k) c code rest h =
    ap (compile_into count_max (copies k c rest))
      (issue_op-counting count_max n c code (omega arith))
    ∙ compile_into-copies count_max (n + 1) k c code rest (omega arith)
    ∙ ap (λ x. compile_into count_max rest (counting code c x)) (omega arith)

issue_op-first :
    (count_max : ℕ) (c : Command) → c ≢ right → issue_op count_max c new ≡ counting nil c 1
unfolding issue_op new push_op
issue_op-first count_max c h = rw (==-right c h) refl

copies-front :
    (n : ℕ) (c : Command) (rest : Ast.Program) → copies (suc n) c rest ≡ copies n c (instr c ⨾ rest)
copies-front zero c rest = refl
copies-front (suc n) c rest = ap (λ p. instr c ⨾ p) (copies-front n c rest)

compile_into-overflow :
    (count : ℕ) (c : Command)
    → c ≢ right
    → compile_into (suc count) (copies (suc (suc count)) c nil) new
      ≡ counting (instr (run c (suc count)) ⨾ nil) right 1
unfolding compile_into
compile_into-overflow count c h =
    ap (λ p. compile_into (suc count) (instr c ⨾ p) new) (copies-front count c nil)
    ∙ ap (compile_into (suc count) (copies count c (instr c ⨾ nil)))
        (issue_op-first (suc count) c h)
    ∙ compile_into-copies (suc count) 1 count c nil (instr c ⨾ nil) (omega arith)
    ∙ ap (λ n. issue_op (suc count) c (counting nil c n)) {y = suc count} (omega arith)
    ∙ issue_op-overflow (suc count) c (omega arith)

-- Take a command other than `>` that stands once more than the largest `Count`, which is
-- positive. It is compiled to a run of that count and one `>`.
pub compile-overflow :
    (count : ℕ) (c : Command)
    → c ≢ right
    → compile (suc count) (copies (suc (suc count)) c nil)
      ≡ (instr (run c (suc count)) ⨾ instr (run right 1) ⨾ nil)
unfolding compile into_program push_op push Tree.◌⧺◌
compile-overflow count c h = ap into_program (compile_into-overflow count c h)
