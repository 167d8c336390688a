-- ===== src/Jit/Unchecked/Correct.antt =====
-- src/jit/compiler.rs: what unchecked code does, instruction by instruction.
use bf_rs.Prelude.{ℕ, ◌≡◌, refl, false}
use bf_rs.Common.{Instruction}
use bf_rs.Common.Laws.{Yields, Yields-bind}
use bf_rs.State
use bf_rs.State.{State, load, store, pos_offset, neg_offset, up_pos_offset, up_neg_offset}
use bf_rs.State.Valid.{load_valid, right-Returns, left-Returns}
use bf_rs.Machine.{Machine, on_state}
use bf_rs.Machine.Laws.{IsValidMachine, Preserves, on_state-Preserves}
use bf_rs.Tree
use bf_rs.Tree.{nil, ◌⨾◌, instr, loop, AllInstr, AllStatement, interpret_statement}
use bf_rs.Peephole
use bf_rs.Peephole.Interpreter as Nested
use bf_rs.Peephole.Interpreter.{move_right, move_left}
use bf_rs.Peephole.Safety.{IsFine, exec-Preserves, interpret-Preserves}
use bf_rs.Jit.Analysis.{no_analysis}
use bf_rs.Jit.Code as Native
use bf_rs.Jit.Code.{go_right, go_left, transfer_right, transfer_left}
use bf_rs.Jit.Compiler.{emit, compile_program, compile_statement, compile}
use bf_rs.Machine.Laws.{while_nonzero-Preserves}
use bf_rs.Machine.Inside.{
  IsInside, Follows, seq-Follows, while_nonzero-Follows, on_state-Follows, guarded-Follows,
}
use bf_rs.Jit.Unchecked.{
  go_right-inside, go_left-inside, transfer_right-inside, transfer_left-inside,
}

module _ (fuel : ℕ) where
  emit-Follows :
      (i : Instruction) (a : Unit)
      → IsFine i
      → Yields
          (λ r. Follows IsValidMachine (Native.exec fuel r.0) (Nested.exec fuel i))
          (emit no_analysis false i a)
  unfolding emit Native.exec Nested.exec no_analysis
  emit-Follows (Instruction.right n) a f = λ m v h.
      on_state-Follows (go_right n false) (State.right n) m (go_right-inside n m.state v.valid f.1)
        h
  emit-Follows (Instruction.left n) a f = λ m v h.
      on_state-Follows (go_left n false) (State.left n) m (go_left-inside n m.state v.valid f.1) h
  emit-Follows (Instruction.add n) a f = λ m v h. refl
  emit-Follows Instruction.in_ a f = λ m v h. refl
  emit-Follows Instruction.out a f = λ m v h. refl
  emit-Follows Instruction.set_zero a f = λ m v h. refl
  emit-Follows (Instruction.find_zero_right n) a f = λ m v h.
      while_nonzero-Follows IsValidMachine fuel (on_state (go_right n false))
        (on_state (State.right n))
        (λ m' v'. on_state-Preserves (State.right n) m' v' (right-Returns m'.state v'.valid n))
        (λ m' v'.
          on_state-Follows (go_right n false) (State.right n) m'
            (go_right-inside n m'.state v'.valid f.1))
        m v h
  emit-Follows (Instruction.find_zero_left n) a f = λ m v h.
      while_nonzero-Follows IsValidMachine fuel (on_state (go_left n false))
        (on_state (State.left n))
        (λ m' v'. on_state-Preserves (State.left n) m' v' (left-Returns m'.state v'.valid n))
        (λ m' v'.
          on_state-Follows (go_left n false) (State.left n) m'
            (go_left-inside n m'.state v'.valid f.1))
        m v h
  emit-Follows (Instruction.offset_add_right n) a f = λ m v h.
      let (b, _, e, _) = load_valid m.state v.valid in
      guarded-Follows m (λ _. transfer_right n false) (move_right n) b e
        (transfer_right-inside n m.state v.valid f.1 b e) h
  emit-Follows (Instruction.offset_add_left n) a f = λ m v h.
      let (b, _, e, _) = load_valid m.state v.valid in
      guarded-Follows m (λ _. transfer_left n false) (move_left n) b e
        (transfer_left-inside n m.state v.valid f.1 b e) h
  emit-Follows (Instruction.jump_zero n) a f = absurd f
  emit-Follows (Instruction.jump_not_zero n) a f = absurd f

  mutual
    unfolding compile_program no_analysis Native.interpret Nested.interpret Tree.interpret

    program-Follows :
        (p : Peephole.Program) (a : Unit)
        → AllInstr IsFine p
        → Yields
            (λ r. Follows IsValidMachine (Native.interpret fuel r.0) (Nested.interpret fuel p))
            (compile_program no_analysis false p a)
    program-Follows nil a f = λ m v h. refl
    program-Follows (s ⨾ p) a f =
        Yields-bind _ (compile_statement no_analysis false s a) _ (statement-Follows s a f.0)
          (λ r k.
            Yields-bind _ (compile_program no_analysis false p r.1) _ (program-Follows p r.1 f.1)
              (λ r' k'.
                seq-Follows IsValidMachine _ (interpret_statement Nested.exec fuel s) _ _
                  (statement-Preserves s f.0) k k'))

    statement-Follows :
        (s : Peephole.Statement) (a : Unit)
        → AllStatement IsFine s
        → Yields
            (λ r.
              Follows IsValidMachine
                (interpret_statement Native.exec fuel r.0)
                (interpret_statement Nested.exec fuel s))
            (compile_statement no_analysis false s a)
    statement-Follows (instr i) a f =
        Yields-bind _ (emit no_analysis false i a) _ (emit-Follows i a f) (λ r h. h)
    statement-Follows (loop body) a f =
        Yields-bind _ (compile_program no_analysis false body a) _ (program-Follows body a f)
          (λ r k.
            while_nonzero-Follows IsValidMachine fuel (Native.interpret fuel r.0)
              (Nested.interpret fuel body) (interpret-Preserves fuel body f) k)

    statement-Preserves :
        (s : Peephole.Statement)
        → AllStatement IsFine s
        → Preserves (interpret_statement Nested.exec fuel s)
    statement-Preserves (instr i) f = exec-Preserves fuel i f
    statement-Preserves (loop body) f =
        while_nonzero-Preserves fuel (Nested.interpret fuel body) (interpret-Preserves fuel body f)

-- A program without jumps, whose amounts are bytes and whose offsets are positive and no more
-- than the largest slice, compiles to unchecked code. From a valid machine from which the program
-- does not fail, the code has the outcome of the program.
pub interpret-compile_unchecked :
    (fuel : ℕ) (p : Peephole.Program) (m : Machine)
    → AllInstr IsFine p
    → IsValidMachine m
    → IsInside (Nested.interpret fuel p m)
    → Yields (λ code. Native.interpret fuel code m ≡ Nested.interpret fuel p m) (compile p false)
unfolding compile no_analysis
interpret-compile_unchecked fuel p m f v h =
    Yields-bind _ (compile_program no_analysis false p tt) _ (program-Follows fuel p tt f)
      (λ r k. k m v h)
