-- ===== src/Rle/Runs.antt =====
-- src/rle/compiler.rs: the runs that come out, and how many commands a pending run holds.
use bf_rs.Prelude.{ℕ, ◌+◌, ◌≤◌, ◌<◌, ◌≡◌, refl, ◌⊎◌, inl, inr, Bool-cases, ltb, ltb→lt, arith}
use bf_rs.Common.{Command}
use bf_rs.Tree.{nil, ◌⨾◌, instr, loop, AllInstr, AllStatement, size, size_statement}
use bf_rs.Tree.Laws.{AllInstr-push}
use bf_rs.Ast
use bf_rs.Ast.{IsPlain}
use bf_rs.Rle.{IsRun, Program}
use bf_rs.Rle.Compiler.{
  Compiler, ◌==◌, new, push_op, checked_add, repeat_or_push, issue_op, issue_loop, into_program,
  compile_into, compile_statement, compile,
}

-- A compiler whose runs, the pending one included, have at most `bound` repetitions.
pub record IsReady (bound : ℕ) (c : Compiler) : Type 0 where
  pub runs : AllInstr (IsRun bound) c.instructions
  pub plain : IsPlain c.last_command
  pub bounded : c.last_repeat ≤ bound

pub new-IsReady : (bound : ℕ) → IsReady bound new
unfolding new
new-IsReady bound = record { runs = tt; plain = tt; bounded = omega arith }

module _ (bound : ℕ) (pos : 0 < bound) where
  pub push_op-IsReady :
      (c : Compiler) → IsReady bound c → IsReady bound (push_op c) × ((push_op c).last_repeat ≡ 0)
  unfolding push_op
  push_op-IsReady c r = elim (Bool-cases (ltb 0 c.last_repeat)) [
    | inl h ↦ rw h (
      record {
        runs =
            AllInstr-push (IsRun bound) c.instructions _ r.runs (record {
              plain = r.plain;
              positive = ltb→lt 0 c.last_repeat h;
              bounded = r.bounded;
            });
        plain = tt;
        bounded = omega arith;
      },
      refl,
    )
    | inr h ↦ rw h (r, ground arith)
  ]

  -- A command adds at most one to the pending run, within the largest count.
  repeat_or_push-IsReady :
      (count_max : ℕ) (c : Compiler)
      → IsReady bound c
      → (c.last_repeat < bound) ⊎ (count_max ≤ bound)
      → IsReady bound (repeat_or_push c (checked_add count_max c.last_repeat))
        × ((repeat_or_push c (checked_add count_max c.last_repeat)).last_repeat ≤ c.last_repeat + 1)
  unfolding repeat_or_push checked_add
  repeat_or_push-IsReady count_max c r h = elim (Bool-cases (ltb c.last_repeat count_max)) [
    | inl l ↦
        let l' = ltb→lt c.last_repeat count_max l in
        rw l (record { runs = r.runs; plain = r.plain; bounded = omega arith }, omega arith)
    | inr l ↦
        let (r', _) = push_op-IsReady c r in
        rw l (record { runs = r'.runs; plain = r'.plain; bounded = pos }, omega arith)
  ]

  pub issue_op-IsReady :
      (count_max : ℕ) (cmd : Command) (c : Compiler)
      → IsPlain cmd
      → IsReady bound c
      → (c.last_repeat < bound) ⊎ (count_max ≤ bound)
      → IsReady bound (issue_op count_max cmd c)
        × ((issue_op count_max cmd c).last_repeat ≤ c.last_repeat + 1)
  unfolding issue_op
  issue_op-IsReady count_max cmd c p r h = elim (Bool-cases (cmd == c.last_command)) [
    | inl e ↦ rw (issue_op, e) (repeat_or_push-IsReady count_max c r h)
    | inr e ↦
        let (r', _) = push_op-IsReady c r in
        rw (issue_op, e) (record { runs = r'.runs; plain = p; bounded = pos }, omega arith)
  ]

  issue_loop-IsReady :
      (body : Program) (c : Compiler)
      → AllInstr (IsRun bound) body
      → IsReady bound c
      → IsReady bound (issue_loop body c) × ((issue_loop body c).last_repeat ≡ 0)
  unfolding issue_loop
  issue_loop-IsReady body c b r =
      let (r', z) = push_op-IsReady c r in
      (
        record {
          runs = AllInstr-push (IsRun bound) (push_op c).instructions (loop body) r'.runs b;
          plain = r'.plain;
          bounded = r'.bounded;
        },
        z,
      )

  pub into_program-runs : (c : Compiler) → IsReady bound c → AllInstr (IsRun bound) (into_program c)
  unfolding into_program
  into_program-runs c r = (push_op-IsReady c r).0.runs

  module _ (count_max : ℕ) where
    mutual
      unfolding compile_into

      pub compile_into-IsReady :
          (p : Ast.Program) (c : Compiler)
          → AllInstr IsPlain p
          → IsReady bound c
          → (c.last_repeat + size p ≤ bound) ⊎ (count_max ≤ bound)
          → IsReady bound (compile_into count_max p c)
            × ((compile_into count_max p c).last_repeat ≤ c.last_repeat + size p)
      compile_into-IsReady nil c a r h = (r, omega arith)
      compile_into-IsReady (s ⨾ p) c a r h =
          let (r₁, l₁) = compile_statement-IsReady s c a.0 r (omega arith) in
          let (r₂, l₂) =
            compile_into-IsReady p (compile_statement count_max s c) a.1 r₁ (omega arith) in
          (r₂, omega arith)

      pub compile_statement-IsReady :
          (s : Ast.Statement) (c : Compiler)
          → AllStatement IsPlain s
          → IsReady bound c
          → (c.last_repeat + size_statement s ≤ bound) ⊎ (count_max ≤ bound)
          → IsReady bound (compile_statement count_max s c)
            × ((compile_statement count_max s c).last_repeat ≤ c.last_repeat + size_statement s)
      compile_statement-IsReady (instr cmd) c a r h =
          issue_op-IsReady count_max cmd c a r (omega arith)
      compile_statement-IsReady (loop body) c a r h =
          let (r₁, _) = compile_into-IsReady body new a (new-IsReady bound) (omega arith) in
          let (r₂, z) =
            issue_loop-IsReady (into_program (compile_into count_max body new)) c
              (into_program-runs (compile_into count_max body new) r₁) r in
          (r₂, omega arith)

-- Where a `Count` can be positive, every run that a program without brackets as instructions is
-- compiled to has a command that is no bracket, at least one repetition and at most as many as a
-- `Count` holds.
pub compile-IsRun :
    (count_max : ℕ) (p : Ast.Program)
    → 0 < count_max
    → AllInstr IsPlain p
    → AllInstr (IsRun count_max) (compile count_max p)
unfolding compile
compile-IsRun count_max p pos a =
    into_program-runs count_max pos (compile_into count_max p new)
      (compile_into-IsReady count_max pos count_max p new a (new-IsReady count_max)
        (inr (omega arith))).0

-- No run has more repetitions than the program has statements.
pub compile-IsRun_size :
    (count_max bound : ℕ) (p : Ast.Program)
    → 0 < bound
    → size p ≤ bound
    → AllInstr IsPlain p
    → AllInstr (IsRun bound) (compile count_max p)
unfolding compile
compile-IsRun_size count_max bound p pos h a =
    into_program-runs bound pos (compile_into count_max p new)
      (compile_into-IsReady bound pos count_max p new a (new-IsReady bound) (inl (omega arith))).0
