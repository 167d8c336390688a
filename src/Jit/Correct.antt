-- ===== src/Jit/Correct.antt =====
-- src/jit: checked native code and the optimized program.
use bf_rs.Prelude.{ℕ, ◌≡◌, refl, sym, ap, subst, ◌∙◌, true, arith}
use bf_rs.Common
use bf_rs.Common.{Result, ok, panic}
use bf_rs.Common.Laws.{Yields, Yields-bind}
use bf_rs.Machine.{Machine, Outcome, ◌>>=◌, while_nonzero}
use bf_rs.Machine.Laws.{IsValidMachine, Post, Post-bind, bind_congr}
use bf_rs.Tree
use bf_rs.Tree.{nil, ◌⨾◌, instr, loop, AllInstr, AllStatement, interpret_statement}
use bf_rs.Peephole
use bf_rs.Peephole.Interpreter as Nested
use bf_rs.Peephole.Safety.{IsFine}
use bf_rs.Jit.Analysis as Bounds
use bf_rs.Jit.Analysis.{
  AbstractInterpreter, abstract_interpreter, push_marks, pop_marks, forget, enter_loop, leave_loop,
}
use bf_rs.Jit.LoopBalance.{LoopBalance, analyze_loop}
use bf_rs.Jit.Code as Native
use bf_rs.Jit.Compiler.{emit, compile_program, compile_statement, compile}
use bf_rs.Jit.Moves.Instructions.{At, while_nonzero-Post}
use bf_rs.Jit.Balance.{Moves, Moves-Repeats}
use bf_rs.Jit.Balance.Sound.{analyze_loop-Moves}
use bf_rs.Jit.Marks.{HasRoom-forget, forget-Repeats, loop_stack-forget}
use bf_rs.Jit.Emit.{IsReady, Agrees, emit-Agrees, IsReady-after, while_nonzero-same}

Agrees-seq :
    (a a₁ a₂ : AbstractInterpreter) (f f' g g' : Machine → Outcome)
    → Agrees a a₁ f f'
    → Agrees a₁ a₂ g g'
    → Agrees a a₂ (λ m. f m >>= g) (λ m. f' m >>= g')
Agrees-seq a a₁ a₂ f f' g g' h k = record {
  stack = k.stack ∙ h.stack;
  same = λ m r. ap (λ o. o >>= g) (h.same m r) ∙ bind_congr (f' m) g g' (h.after m r) k.same;
  after = λ m r. Post-bind (IsReady a₂) (f' m) g' (h.after m r) k.after;
}

-- One round of a loop keeps what is known wherever it tests its cell.
round-after :
    (b : LoopBalance) (a : AbstractInterpreter) (body : Machine → Outcome)
    → ((m : Machine) → IsValidMachine m → Post (At (Moves b) m) (body m))
    → (m : Machine) → IsReady (forget b a) m
    → Post (IsReady (forget b a)) (body m)
round-after b a body h m r =
    IsReady-after (Moves b) (forget b a) (forget b a) m (body m) r
      (λ s' v e. forget-Repeats b a m.state s' r.room v (
        Moves-Repeats b m.state.pointer s'.pointer
          (omega (arith, v.before.inside, v.before.allocated))
          (omega (arith, v.after.inside, v.after.allocated)) e))
      (h m r.valid)

IsReady-forget :
    (b : LoopBalance) (a : AbstractInterpreter) (m : Machine) → IsReady a m → IsReady (forget b a) m
IsReady-forget b a m r = record {
  valid = r.valid;
  room = HasRoom-forget b a m.state r.valid.valid r.room;
}

IsReady-push_marks :
    (a : AbstractInterpreter) (m : Machine) → IsReady a m → IsReady (push_marks a) m
IsReady-push_marks a m r = record {
  valid = r.valid;
  room = record { low = r.room.low; high = r.room.high };
}

-- The marks that a loop leaves are those that it was entered with, where `a₁` is what the code of
-- the body leaves.
Agrees-loop :
    (fuel : ℕ) (b : LoopBalance) (a a₁ a₂ : AbstractInterpreter) (body body' : Machine → Outcome)
    → ((m : Machine) → IsValidMachine m → Post (At (Moves b) m) (body' m))
    → Agrees (push_marks (forget b a)) a₁ body body'
    → a₂ ≡ forget b a
    → Agrees a a₂ (while_nonzero fuel body) (while_nonzero fuel body')
Agrees-loop fuel b a a₁ a₂ body body' h k e = record {
  stack = ap (λ x. x.loop_stack) e ∙ loop_stack-forget b a;
  same = λ m r.
      while_nonzero-same (IsReady (forget b a)) fuel body body'
        (λ m' r'. k.same m' (IsReady-push_marks (forget b a) m' r')) (round-after b a body' h) m
        (IsReady-forget b a m r);
  after = λ m r.
      subst (λ x. Post (IsReady x) (while_nonzero fuel body' m)) (sym e)
        (while_nonzero-Post (IsReady (forget b a)) (λ m' r'. r'.valid) fuel body'
          (round-after b a body' h) m (IsReady-forget b a m r));
}

-- Entering a loop returns, and forgets what its balance does not keep.
enter_loop-Entered :
    (fuel : ℕ) (body : Peephole.Program) (a : AbstractInterpreter)
    → AllInstr IsFine body
    → Yields
        (λ inside.
          (b : LoopBalance) × ((m : Machine)
            → IsValidMachine m
            → Post (At (Moves b) m) (Nested.interpret fuel body m))
          × (inside ≡ push_marks (forget b a)))
        (enter_loop body a)
unfolding enter_loop
enter_loop-Entered fuel body a f =
    Yields-bind _ (analyze_loop body) _ (analyze_loop-Moves fuel body f) (λ b h. (b, h, refl))

module _ (fuel : ℕ) where
  mutual
    unfolding compile_program abstract_interpreter enter_loop leave_loop Native.interpret
        Nested.interpret Tree.interpret

    compile_program-Agrees :
        (p : Peephole.Program) (a : AbstractInterpreter)
        → AllInstr IsFine p
        → Yields
            (λ r. Agrees a r.1 (Native.interpret fuel r.0) (Nested.interpret fuel p))
            (compile_program abstract_interpreter true p a)
    compile_program-Agrees nil a f = record { stack = refl; same = λ m r. refl; after = λ m r. r }
    compile_program-Agrees (s ⨾ p) a f =
        Yields-bind _ (compile_statement abstract_interpreter true s a) _
          (compile_statement-Agrees s a f.0)
          (λ r h.
            Yields-bind _ (compile_program abstract_interpreter true p r.1) _
              (compile_program-Agrees p r.1 f.1)
              (λ r' k.
                Agrees-seq a r.1 r'.1 (interpret_statement Native.exec fuel r.0)
                  (interpret_statement Nested.exec fuel s) (Native.interpret fuel r'.0)
                  (Nested.interpret fuel p) h k))

    compile_statement-Agrees :
        (s : Peephole.Statement) (a : AbstractInterpreter)
        → AllStatement IsFine s
        → Yields
            (λ r.
              Agrees a r.1
                (interpret_statement Native.exec fuel r.0)
                (interpret_statement Nested.exec fuel s))
            (compile_statement abstract_interpreter true s a)
    compile_statement-Agrees (instr i) a f =
        Yields-bind _ (emit abstract_interpreter true i a) _ (emit-Agrees fuel i a f) (λ r h. h)
    compile_statement-Agrees (loop body) a f =
        Yields-bind _ (Common.◌>>=◌ (analyze_loop body) λ b. ok (push_marks (forget b a))) _
          (enter_loop-Entered fuel body a f)
          (λ inside (b, h, e).
            Yields-bind _ (compile_program abstract_interpreter true body inside) _
              (compile_program-Agrees body inside f)
              (λ r k.
                let k' =
                  subst (λ x. Agrees x r.1 (Native.interpret fuel r.0) (Nested.interpret fuel body))
                    e k in
                rw (k'.stack) (
                  Agrees-loop fuel b a r.1 (forget b a) (Native.interpret fuel r.0)
                    (Nested.interpret fuel body) h k' refl)))

-- A program without jumps, whose amounts are bytes and whose offsets are positive and no more
-- than the largest slice, compiles to checked code, where the analysis leaves checks out. From a
-- valid machine the code has the outcome of the program.
pub interpret-compile_jit :
    (fuel : ℕ) (p : Peephole.Program) (m : Machine)
    → AllInstr IsFine p
    → IsValidMachine m
    → Yields (λ code. Native.interpret fuel code m ≡ Nested.interpret fuel p m) (compile p true)
unfolding compile abstract_interpreter Bounds.start
interpret-compile_jit fuel p m f v =
    Yields-bind _ (compile_program abstract_interpreter true p Bounds.start) _
      (compile_program-Agrees fuel p Bounds.start f)
      (λ r h. h.same m (record {
        valid = v;
        room = record { low = omega arith; high = omega (arith, v.valid.inside) };
      }))
