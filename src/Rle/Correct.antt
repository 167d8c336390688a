-- ===== src/Rle/Correct.antt =====
-- src/rle/compiler.rs: the run-length encoding and the program.
use bf_rs.Prelude.{
  ℕ, zero, suc, ◌+◌, ◌≤◌, ◌<◌, ◌≡◌, refl, sym, ap, ◌∙◌, true, false, Bool-cases, inl, inr, lt→ltb,
  arith,
}
use mathlib.Core.Path.{fun_ext}
use bf_rs.Common.{Command}
use bf_rs.State.Valid.{isize_max}
use bf_rs.Machine.{Machine, Outcome, ◌>>=◌, while_nonzero}
use bf_rs.Machine.Laws.{
  bind-done, bind_assoc, bind_congr, IsValidMachine, while_nonzero-congr, Preserves,
}
use bf_rs.Tree
use bf_rs.Tree.{
  nil, ◌⨾◌, instr, loop, push, AllInstr, AllStatement, size, size_statement, interpret_statement,
}
use bf_rs.Tree.Laws.{interpret-push}
use bf_rs.Ast
use bf_rs.Ast.{IsPlain}
use bf_rs.Ast.Interpreter as Plain
use bf_rs.Rle.{run, Program}
use bf_rs.Rle.Compiler.{
  Compiler, ◌==◌, new, push_op, checked_add, issue_op, issue_loop, into_program, compile_into,
  compile_statement, compile,
}
use bf_rs.Rle.Interpreter.{interpret_command, exec, interpret}
use bf_rs.Rle.Repeat.{interpret_command-suc, interpret_command_one}
use bf_rs.Rle.Runs.{
  IsReady, new-IsReady, compile_into-IsReady, compile_statement-IsReady, into_program-runs,
  push_op-IsReady,
}
use bf_rs.Rle.Safety.{interpret-Preserves}

==→eq_command : (a b : Command) → (a == b) ≡ true → a ≡ b
unfolding ◌==◌
==→eq_command a b h = ground arith

into_program_empty : (c : Compiler) → c.last_repeat ≡ 0 → into_program c ≡ c.instructions
unfolding into_program
into_program_empty c e = ground arith

into_program_pending :
    (c : Compiler)
    → 0 < c.last_repeat
    → into_program c ≡ push c.instructions (instr (run c.last_command c.last_repeat))
unfolding into_program
into_program_pending c e = rw (into_program, lt→ltb 0 c.last_repeat e)

pos : 0 < isize_max
pos = omega arith

module _ (fuel : ℕ) where
  -- What the instructions that came out and the pending run do.
  abbrev meaning : Compiler → Machine → Outcome
  meaning c = interpret fuel (into_program c)

  meaning_pending :
      (c : Compiler) (m : Machine)
      → 0 < c.last_repeat
      → meaning c m
        ≡ (interpret fuel c.instructions m >>= interpret_command c.last_command c.last_repeat)
  unfolding interpret Tree.interpret
  meaning_pending c m h =
      rw (into_program_pending c h)
        (interpret-push exec fuel c.instructions (instr (run c.last_command c.last_repeat)) m)

  prefix-Preserves :
      (c : Compiler) → IsReady isize_max c → Preserves (interpret fuel c.instructions)
  prefix-Preserves c r = interpret-Preserves fuel isize_max c.instructions r.runs

  meaning-Preserves : (c : Compiler) → IsReady isize_max c → Preserves (meaning c)
  meaning-Preserves c r =
      interpret-Preserves fuel isize_max (into_program c) (into_program-runs isize_max pos c r)

  -- One repetition more of the last command.
  meaning_repeat :
      (n : ℕ) (c : Compiler) (m : Machine)
      → IsValidMachine m
      → IsReady isize_max c
      → c.last_repeat ≡ n
      → n < isize_max
      → meaning (record c { last_repeat = c.last_repeat + 1 }) m
        ≡ (meaning c m >>= Plain.interpret_command c.last_command)
  meaning_repeat zero c m v r e h =
      let before = interpret fuel c.instructions m in
      meaning_pending (record c { last_repeat = c.last_repeat + 1 }) m (omega arith)
      ∙ ap (λ k. before >>= interpret_command c.last_command k) (omega arith)
      ∙ ap (λ k. before >>= k) (fun_ext (interpret_command_one c.last_command))
      ∙ ap (λ p. interpret fuel p m >>= Plain.interpret_command c.last_command)
          (sym (into_program_empty c e))
  meaning_repeat (suc n) c m v r e h =
      let before = interpret fuel c.instructions m in
      let cmd = c.last_command in
      meaning_pending (record c { last_repeat = c.last_repeat + 1 }) m (omega arith)
      ∙ ap (λ k. before >>= interpret_command cmd k) (omega arith)
      ∙ bind_congr before (interpret_command cmd (suc (suc n)))
          (λ m'. interpret_command cmd (suc n) m' >>= Plain.interpret_command cmd)
          (prefix-Preserves c r m v)
          (λ m' v'. interpret_command-suc cmd (suc n) m' v' (omega arith))
      ∙ sym (bind_assoc before (interpret_command cmd (suc n)) (Plain.interpret_command cmd))
      ∙ ap (λ k. before >>= interpret_command cmd k >>= Plain.interpret_command cmd) (sym e)
      ∙ ap (λ o. o >>= Plain.interpret_command cmd) (sym (meaning_pending c m (omega arith)))

  module _ (count_max : ℕ) where
    issue_op_same :
        (cmd : Command) (c : Compiler)
        → (cmd == c.last_command) ≡ true
        → c.last_repeat < count_max
        → issue_op count_max cmd c ≡ record c { last_repeat = c.last_repeat + 1 }
    unfolding issue_op
    issue_op_same cmd c e h = rw (issue_op, e, checked_add, lt→ltb c.last_repeat count_max h)

    -- Another command than the last starts a run of its own.
    meaning_other :
        (cmd : Command) (c : Compiler) (m : Machine)
        → (cmd == c.last_command) ≡ false
        → meaning (issue_op count_max cmd c) m ≡ (meaning c m >>= Plain.interpret_command cmd)
    unfolding issue_op into_program
    meaning_other cmd c m e =
        let d : Compiler = record (push_op c) { last_command = cmd; last_repeat = 1 } in
        ap (λ (d : Compiler). meaning d m) {x = issue_op count_max cmd c} {y = d} (rw (issue_op, e))
        ∙ meaning_pending d m (omega arith)
        ∙ ap (λ k. meaning c m >>= k) (fun_ext (interpret_command_one cmd))

    -- A command that is issued comes last.
    meaning-issue_op :
        (cmd : Command) (c : Compiler) (m : Machine)
        → IsValidMachine m
        → IsReady isize_max c
        → c.last_repeat < isize_max
        → c.last_repeat < count_max
        → meaning (issue_op count_max cmd c) m ≡ (meaning c m >>= Plain.interpret_command cmd)
    meaning-issue_op cmd c m v r h k = elim (Bool-cases (cmd == c.last_command)) [
      | inl e ↦
          ap (λ (d : Compiler). meaning d m) (issue_op_same cmd c e k)
          ∙ meaning_repeat c.last_repeat c m v r refl h
          ∙ ap (λ d. meaning c m >>= Plain.interpret_command d)
              (sym (==→eq_command cmd c.last_command e))
      | inr e ↦ meaning_other cmd c m e
    ]

    -- So does a loop.
    meaning-issue_loop :
        (body : Program) (c : Compiler) (m : Machine)
        → IsReady isize_max c
        → meaning (issue_loop body c) m ≡ (meaning c m >>= while_nonzero fuel (interpret fuel body))
    unfolding issue_loop into_program interpret Tree.interpret
    meaning-issue_loop body c m r =
        ap (λ p. interpret fuel p m)
          (into_program_empty (issue_loop body c) (push_op-IsReady isize_max pos c r).1)
        ∙ interpret-push exec fuel (into_program c) (loop body) m

    mutual
      unfolding compile_into Plain.interpret interpret Tree.interpret new

      meaning-compile_into :
          (p : Ast.Program) (c : Compiler) (m : Machine)
          → IsValidMachine m
          → AllInstr IsPlain p
          → IsReady isize_max c
          → c.last_repeat + size p ≤ isize_max
          → c.last_repeat + size p ≤ count_max
          → meaning (compile_into count_max p c) m ≡ (meaning c m >>= Plain.interpret fuel p)
      meaning-compile_into nil c m v a r h k = sym (bind-done (meaning c m))
      meaning-compile_into (s ⨾ p) c m v a r h k =
          let c' = compile_statement count_max s c in
          let (r', l) =
            compile_statement-IsReady isize_max pos count_max s c a.0 r (inl (omega arith)) in
          meaning-compile_into p c' m v a.1 r' (omega arith) (omega arith)
          ∙ ap (λ o. o >>= Plain.interpret fuel p)
              (meaning-compile_statement s c m v a.0 r (omega arith) (omega arith))
          ∙ bind_assoc (meaning c m) (interpret_statement Plain.exec fuel s)
              (Plain.interpret fuel p)

      meaning-compile_statement :
          (s : Ast.Statement) (c : Compiler) (m : Machine)
          → IsValidMachine m
          → AllStatement IsPlain s
          → IsReady isize_max c
          → c.last_repeat + size_statement s ≤ isize_max
          → c.last_repeat + size_statement s ≤ count_max
          → meaning (compile_statement count_max s c) m
            ≡ (meaning c m >>= interpret_statement Plain.exec fuel s)
      meaning-compile_statement (instr cmd) c m v a r h k =
          meaning-issue_op cmd c m v r (omega arith) (omega arith)
      meaning-compile_statement (loop body) c m v a r h k =
          let ready = new-IsReady isize_max in
          let d = compile_into count_max body new in
          let (rd, _) =
            compile_into-IsReady isize_max pos count_max body new a ready (inl (omega arith)) in
          meaning-issue_loop (into_program d) c m r
          ∙ bind_congr (meaning c m) (while_nonzero fuel (meaning d))
              (while_nonzero fuel (Plain.interpret fuel body)) (meaning-Preserves c r m v)
              (while_nonzero-congr fuel (meaning d) (Plain.interpret fuel body)
                (meaning-Preserves d rd)
                (λ m' v'.
                  meaning-compile_into body new m' v' a ready (omega arith) (omega arith)
                  ∙ ap (λ p. interpret fuel p m' >>= Plain.interpret fuel body)
                      (into_program_empty new refl)))

-- A program without brackets as instructions, with no more statements than the largest slice and
-- the largest `Count`, and its run-length encoding have the same outcome from a valid machine:
-- the same end or error, output and rest of the input.
pub interpret-compile_runs :
    (fuel count_max : ℕ) (p : Ast.Program) (m : Machine)
    → IsValidMachine m
    → AllInstr IsPlain p
    → size p ≤ isize_max
    → size p ≤ count_max
    → interpret fuel (compile count_max p) m ≡ Plain.interpret fuel p m
unfolding compile new interpret Tree.interpret
interpret-compile_runs fuel count_max p m v a h k =
    meaning-compile_into fuel count_max p new m v a (new-IsReady isize_max) (omega arith)
      (omega arith)
    ∙ ap (λ q. interpret fuel q m >>= Plain.interpret fuel p) (into_program_empty new refl)
