-- ===== src/Peephole/Correct.antt =====
-- src/peephole/compiler.rs: the optimized program and the program of runs.
use bf_rs.Prelude.{ℕ, zero, suc, ◌-◌, ◌%◌, ◌≤◌, ◌≡◌, refl, sym, ap, ◌∙◌, arith}
use mathlib.Core.Path.{fun_ext}
use bf_rs.Common.{Command, Instruction, in_, out, right, left, add}
use bf_rs.Common.Laws.{Yields, Yields-bind, Yields-map}
use bf_rs.State
use bf_rs.State.{State, byte_mod, modify, wrapping_add, wrapping_sub}
use bf_rs.State.Valid.{isize_max}
use bf_rs.Machine.{Machine, Outcome, ◌>>=◌, on_state}
use bf_rs.Machine.Laws.{bind-done, bind_assoc, bind_congr, IsValidMachine, while_nonzero-congr}
use bf_rs.Tree
use bf_rs.Tree.{nil, ◌⨾◌, instr, loop, push, AllInstr, AllStatement, interpret_statement}
use bf_rs.Tree.Laws.{interpret-push, AllInstr-push, AllInstr-map}
use bf_rs.Rle
use bf_rs.Rle.{IsRun}
use bf_rs.Rle.Interpreter as Runs
use bf_rs.Rle.Interpreter.{repeat}
use bf_rs.Peephole.{Program, Statement}
use bf_rs.Peephole.Compiler.{
  peephole, loop_or, push_times, compile_run, compile_into, compile_statement, compile,
}
use bf_rs.Peephole.Interpreter.{exec, interpret}
use bf_rs.Peephole.Safety.{IsFine, IsFineUpTo, widen, interpret-Preserves}
use bf_rs.Peephole.Rewrites.{loop_or-peephole}

-- `Add` of the complement takes away.
up-down :
    (n : ℕ) (m : Machine)
    → on_state (State.up ((256 - n % 256) % byte_mod)) m ≡ on_state (State.down (n % byte_mod)) m
unfolding State.up State.down
up-down n m = ap (λ f. on_state (λ s. modify f s.pointer s) m) (fun_ext λ b. omega arith)

module _ (bound : ℕ) (small : bound ≤ isize_max) (fuel : ℕ) (enough : 256 ≤ fuel) where
  all-IsFine : (q : Program) → AllInstr (IsFineUpTo bound) q → AllInstr IsFine q
  all-IsFine = AllInstr-map (IsFineUpTo bound) IsFine (λ i. widen bound i small)

  -- `q` is fine, and does what `code` does and then what `rest` does.
  abbrev Extends : Program → (Machine → Outcome) → Program → Type 0
  Extends code rest q =
      AllInstr (IsFineUpTo bound) q
      × ((m : Machine) → IsValidMachine m → interpret fuel q m ≡ (interpret fuel code m >>= rest))

  Extends-push :
      (code : Program) (s : Statement) (rest : Machine → Outcome)
      → AllInstr (IsFineUpTo bound) code
      → AllStatement (IsFineUpTo bound) s
      → ((m : Machine) → IsValidMachine m → interpret_statement exec fuel s m ≡ rest m)
      → Extends code rest (push code s)
  unfolding interpret
  Extends-push code s rest f g h = (
    AllInstr-push (IsFineUpTo bound) code s f g,
    λ m v.
        interpret-push exec fuel code s m
        ∙ bind_congr (interpret fuel code m) (interpret_statement exec fuel s) rest
            (interpret-Preserves fuel code (all-IsFine code f) m v) h,
  )

  interpret-push_times :
      (n : ℕ) (i : Instruction) (code : Program) (m : Machine)
      → interpret fuel (push_times n i code) m ≡ (interpret fuel code m >>= repeat n (exec fuel i))
  unfolding push_times repeat interpret Tree.interpret
  interpret-push_times zero i code m = sym (bind-done (interpret fuel code m))
  interpret-push_times (suc n) i code m =
      interpret-push_times n i (push code (instr i)) m
      ∙ ap (λ o. o >>= repeat n (exec fuel i)) (interpret-push exec fuel code (instr i) m)
      ∙ bind_assoc (interpret fuel code m) (exec fuel i) (repeat n (exec fuel i))

  push_times-IsFineUpTo :
      (n : ℕ) (i : Instruction) (code : Program)
      → IsFineUpTo bound i
      → AllInstr (IsFineUpTo bound) code
      → AllInstr (IsFineUpTo bound) (push_times n i code)
  unfolding push_times
  push_times-IsFineUpTo zero i code g f = f
  push_times-IsFineUpTo (suc n) i code g f =
      push_times-IsFineUpTo n i (push code (instr i)) g
        (AllInstr-push (IsFineUpTo bound) code (instr i) f g)

  compile_run-Extends :
      (c : Command) (n : ℕ) (code : Program)
      → IsRun bound (Rle.run c n)
      → AllInstr (IsFineUpTo bound) code
      → Yields (Extends code (Runs.interpret_command c n)) (compile_run c n code)
  unfolding compile_run Runs.interpret_command exec Tree.interpret
  compile_run-Extends Command.right n code r f =
      Extends-push code (instr (right n)) _ f (r.positive, r.bounded) (λ m v. refl)
  compile_run-Extends Command.left n code r f =
      Extends-push code (instr (left n)) _ f (r.positive, r.bounded) (λ m v. refl)
  compile_run-Extends Command.up n code r f =
      Extends-push code (instr (add (n % 256 % byte_mod))) _ f (omega arith)
        (λ m v. ap (λ k. on_state (State.up k) m) (omega arith))
  compile_run-Extends Command.down n code r f =
      Extends-push code (instr (add ((256 - n % 256) % byte_mod))) _ f (omega arith)
        (λ m v. up-down n m)
  compile_run-Extends Command.in_ n code r f =
      (push_times-IsFineUpTo n in_ code tt f, λ m v. interpret-push_times n in_ code m)
  compile_run-Extends Command.out n code r f =
      (push_times-IsFineUpTo n out code tt f, λ m v. interpret-push_times n out code m)
  compile_run-Extends Command.begin n code r f = absurd r.plain
  compile_run-Extends Command.end n code r f = absurd r.plain

  mutual
    unfolding compile_into Runs.interpret interpret Tree.interpret

    compile_into-Extends :
        (p : Rle.Program) (code : Program)
        → AllInstr (IsRun bound) p
        → AllInstr (IsFineUpTo bound) code
        → Yields (Extends code (Runs.interpret fuel p)) (compile_into p code)
    compile_into-Extends nil code a f = (f, λ m v. sym (bind-done (interpret fuel code m)))
    compile_into-Extends (s ⨾ p) code a f =
        Yields-bind _ (compile_statement s code) (compile_into p)
          (compile_statement-Extends s code a.0 f)
          (λ code' h.
            Yields-map
              (λ q g. (
                g.0,
                λ m v.
                    g.1 m v
                    ∙ ap (λ o. o >>= Runs.interpret fuel p) (h.1 m v)
                    ∙ bind_assoc (interpret fuel code m) (interpret_statement Runs.exec fuel s)
                        (Runs.interpret fuel p),
              ))
              (compile_into p code') (compile_into-Extends p code' a.1 h.0))

    compile_statement-Extends :
        (s : Rle.Statement) (code : Program)
        → AllStatement (IsRun bound) s
        → AllInstr (IsFineUpTo bound) code
        → Yields (Extends code (interpret_statement Runs.exec fuel s)) (compile_statement s code)
    compile_statement-Extends (instr r) code a f = compile_run-Extends r.command r.count code a f
    compile_statement-Extends (loop body) code a f =
        Yields-bind _ (compile_into body nil) _ (compile_into-Extends body nil a tt) (λ q h.
          let (g, e) = loop_or-peephole bound small fuel enough q h.0 in
          Extends-push code (loop_or q (peephole q)) _ f g (λ m v.
            e m v
            ∙ while_nonzero-congr fuel (interpret fuel q) (Runs.interpret fuel body)
                (interpret-Preserves fuel q (all-IsFine q h.0)) h.1 m v))

-- A program of runs, each of a command that is no bracket and of a positive count that is no more
-- than a bound, itself no more than the largest slice, is optimized without panic. What comes out
-- has no jumps, adds bytes, and moves by offsets that are positive and no more than the bound.
pub compile-IsFineUpTo :
    (bound : ℕ) (p : Rle.Program)
    → bound ≤ isize_max
    → AllInstr (IsRun bound) p
    → Yields (AllInstr (IsFineUpTo bound)) (compile p)
unfolding compile
compile-IsFineUpTo bound p h a =
    Yields-map (λ q h. h.0) (compile_into p nil)
      (compile_into-Extends bound h 256 (omega arith) p nil a tt)

pub compile-IsFine :
    (p : Rle.Program) → AllInstr (IsRun isize_max) p → Yields (AllInstr IsFine) (compile p)
compile-IsFine p a = compile-IsFineUpTo isize_max p (omega arith) a

-- A program of runs, each of a command that is no bracket and of a positive count that is no more
-- than the largest slice, is optimized without panic. With at least 256 rounds for each loop it
-- has the same outcome as its optimized form from a valid machine.
pub interpret-compile_peephole :
    (fuel : ℕ) (p : Rle.Program) (m : Machine)
    → 256 ≤ fuel
    → IsValidMachine m
    → AllInstr (IsRun isize_max) p
    → Yields (λ q. interpret fuel q m ≡ Runs.interpret fuel p m) (compile p)
unfolding compile interpret Tree.interpret
interpret-compile_peephole fuel p m h v a =
    Yields-map (λ q g. g.1 m v) (compile_into p nil)
      (compile_into-Extends isize_max (omega arith) fuel h p nil a tt)
