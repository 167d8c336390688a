-- ===== src/Llvm/Correct.antt =====
-- src/llvm/compiler.rs: the code that is emitted, and the interpreter of src/peephole.
use bf_rs.Prelude.{ℕ, ◌≡◌, refl, ap, sym, ◌∙◌}
use bf_rs.Common.{Instruction, Result}
use bf_rs.Common.Laws.{Yields, Yields-bind, Yields-map}
use bf_rs.State
use bf_rs.State.{State}
use bf_rs.State.Valid.{load_valid, right-Returns, left-Returns}
use bf_rs.Machine.{Machine, Outcome, ◌>>=◌, on_state, while_nonzero}
use bf_rs.Machine.Laws.{
  IsValidMachine, Preserves, bind-done, bind_congr, on_state-Preserves, on_state-same, guarded-same,
  while_nonzero-Preserves, while_nonzero-congr,
}
use bf_rs.Tree
use bf_rs.Tree.{nil, ◌⨾◌, instr, loop, AllInstr, AllStatement, interpret_statement}
use bf_rs.Peephole
use bf_rs.Peephole.Interpreter as Nested
use bf_rs.Peephole.Interpreter.{move_right, move_left}
use bf_rs.Peephole.Safety.{IsFine, exec-Preserves, interpret-Preserves}
use bf_rs.Llvm.{Op}
use bf_rs.Llvm.Code as Emitted
use bf_rs.Llvm.Code.{go_right, go_left, transfer_right, transfer_left}
use bf_rs.Llvm.Compiler.{emit, compile_block, compile_statement}
use bf_rs.Llvm.Checks.{
  go_right-right, go_left-left, transfer_right-move_right, transfer_left-move_left,
}

-- From every valid machine, the same outcome.
abbrev pub Same : (Machine → Outcome) → (Machine → Outcome) → Type 0
Same code source = (m : Machine) → IsValidMachine m → source m ≡ code m

while_nonzero-Same :
    (fuel : ℕ) (code source : Machine → Outcome)
    → Preserves source
    → Same code source
    → Same (while_nonzero fuel code) (while_nonzero fuel source)
while_nonzero-Same fuel code source p k = while_nonzero-congr fuel source code p k

module _ (fuel : ℕ) where
  -- A search is a loop around one move.
  search-Same :
      (op : Op) (move : State → Result State)
      → Preserves (on_state move)
      → Same (Emitted.exec fuel op) (on_state move)
      → Same
          (interpret_statement Emitted.exec fuel (loop (instr op ⨾ nil)))
          (while_nonzero fuel (on_state move))
  unfolding Tree.interpret
  search-Same op move p k =
      while_nonzero-Same fuel _ (on_state move) p
        (λ m v. k m v ∙ sym (bind-done (Emitted.exec fuel op m)))

  emit-Same :
      (i : Instruction)
      → IsFine i
      → Yields
          (λ code. Same (interpret_statement Emitted.exec fuel code) (Nested.exec fuel i))
          (emit i)
  unfolding emit Emitted.exec Nested.exec Tree.interpret
  emit-Same (Instruction.right n) f = λ m v.
      on_state-same m (State.right n) (go_right n) (sym (go_right-right n m.state v.valid f.1))
  emit-Same (Instruction.left n) f =
      λ m v. on_state-same m (State.left n) (go_left n) (sym (go_left-left n m.state v.valid f.1))
  emit-Same (Instruction.add n) f = λ m v. refl
  emit-Same Instruction.in_ f = λ m v. refl
  emit-Same Instruction.out f = λ m v. refl
  emit-Same Instruction.set_zero f = λ m v. refl
  emit-Same (Instruction.find_zero_right n) f =
      search-Same (Op.right n) (State.right n)
        (λ m v. on_state-Preserves (State.right n) m v (right-Returns m.state v.valid n))
        (λ m v.
          on_state-same m (State.right n) (go_right n) (sym (go_right-right n m.state v.valid f.1)))
  emit-Same (Instruction.find_zero_left n) f =
      search-Same (Op.left n) (State.left n)
        (λ m v. on_state-Preserves (State.left n) m v (left-Returns m.state v.valid n))
        (λ m v.
          on_state-same m (State.left n) (go_left n) (sym (go_left-left n m.state v.valid f.1)))
  emit-Same (Instruction.offset_add_right n) f = λ m v.
      let (b, _, e, _) = load_valid m.state v.valid in
      sym (
        guarded-same m (transfer_right n) (move_right n) b e
          (transfer_right-move_right n m.state v.valid f.1 b e))
  emit-Same (Instruction.offset_add_left n) f = λ m v.
      let (b, _, e, _) = load_valid m.state v.valid in
      sym (
        guarded-same m (transfer_left n) (move_left n) b e
          (transfer_left-move_left n m.state v.valid f.1 b e))
  emit-Same (Instruction.jump_zero n) f = absurd f
  emit-Same (Instruction.jump_not_zero n) f = absurd f

  mutual
    unfolding compile_block Emitted.interpret Nested.interpret Tree.interpret

    program-Same :
        (p : Peephole.Program)
        → AllInstr IsFine p
        → Yields
            (λ code. Same (Emitted.interpret fuel code) (Nested.interpret fuel p))
            (compile_block p)
    program-Same nil f = λ m v. refl
    program-Same (s ⨾ p) f = Yields-bind _ (compile_statement s) _ (statement-Same s f.0) (λ code k.
        Yields-bind _ (compile_block p) _ (program-Same p f.1) (λ rest k' m v.
          bind_congr (interpret_statement Nested.exec fuel s m) _ _ (statement-Preserves s f.0 m v)
            k'
          ∙ ap (λ o. o >>= Emitted.interpret fuel rest) (k m v)))

    statement-Same :
        (s : Peephole.Statement)
        → AllStatement IsFine s
        → Yields
            (λ code.
              Same
                (interpret_statement Emitted.exec fuel code)
                (interpret_statement Nested.exec fuel s))
            (compile_statement s)
    statement-Same (instr i) f = emit-Same i f
    statement-Same (loop body) f =
        Yields-bind _ (compile_block body) _ (program-Same body f) (λ code k.
          while_nonzero-Same fuel (Emitted.interpret fuel code) (Nested.interpret fuel body)
            (interpret-Preserves fuel body f) k)

    statement-Preserves :
        (s : Peephole.Statement)
        → AllStatement IsFine s
        → Preserves (interpret_statement Nested.exec fuel s)
    statement-Preserves (instr i) f = exec-Preserves fuel i f
    statement-Preserves (loop body) f =
        while_nonzero-Preserves fuel (Nested.interpret fuel body) (interpret-Preserves fuel body f)

-- A program without jumps, whose amounts are bytes and whose offsets are positive and no more
-- than the largest slice, is compiled without panic. From a valid machine the code that LLVM is
-- told to make has the outcome of the program, errors included.
pub interpret-compile_block :
    (fuel : ℕ) (p : Peephole.Program) (m : Machine)
    → AllInstr IsFine p
    → IsValidMachine m
    → Yields (λ code. Emitted.interpret fuel code m ≡ Nested.interpret fuel p m) (compile_block p)
interpret-compile_block fuel p m f v =
    Yields-map (λ code k. sym (k m v)) (compile_block p) (program-Same fuel p f)
