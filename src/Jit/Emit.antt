-- ===== src/Jit/Emit.antt =====
-- src/jit/compiler.rs: the code of one instruction, where the marks hold.
use bf_rs.Prelude.{ℕ, zero, suc, ◌≡◌, refl, ap, true, ◌&&◌, not, inl}
use bf_rs.Common.{Instruction}
use bf_rs.Common.Laws.{Yields}
use bf_rs.State
use bf_rs.State.{State, load}
use bf_rs.State.Valid.{load_valid, right-Returns, left-Returns}
use bf_rs.Machine.{Machine, Outcome, done, with_result, on_state, branch, while_nonzero}
use bf_rs.Machine.Laws.{IsValidMachine, Post, bind_congr, on_state-Preserves, guarded-same}
use bf_rs.Peephole.Interpreter as Nested
use bf_rs.Peephole.Interpreter.{move_right, move_left}
use bf_rs.Peephole.Safety.{IsFine}
use bf_rs.Jit.{Op}
use bf_rs.Jit.Analysis as Bounds
use bf_rs.Jit.Analysis.{
  AbstractInterpreter, abstract_interpreter, start, push_marks, pop_marks, forget, enter_loop,
  leave_loop,
}
use bf_rs.Jit.Code as Native
use bf_rs.Jit.Code.{go_right, go_left, transfer_right, transfer_left}
use bf_rs.Jit.Compiler.{emit}
use bf_rs.Jit.Moves.Instructions.{At, Goes, exec-Goes, Post-map}
use bf_rs.Jit.Checks.{
  go_right-right, go_left-left, transfer_right-move_right, transfer_left-move_left,
}
use bf_rs.Jit.Marks.{
  HasRoom, IsMove, move_right-HasRoom, move_left-HasRoom, reset_right-HasRoom, reset_left-HasRoom,
  HasRoom-stay, move_right-proved, move_left-proved, check_right-proved, check_left-proved,
  loop_stack-move_right, loop_stack-move_left,
}

-- A valid machine whose pointer has the room of the marks.
pub record IsReady (a : AbstractInterpreter) (m : Machine) : Type 0 where
  pub valid : IsValidMachine m
  pub room : HasRoom a m.state

-- The code and the source do the same from where the marks `a` hold, and leave `a'` to hold.
pub record Agrees (a a' : AbstractInterpreter) (code source : Machine → Outcome) : Type 0 where
  pub stack : a'.loop_stack ≡ a.loop_stack
  pub same : (m : Machine) → IsReady a m → code m ≡ source m
  pub after : (m : Machine) → IsReady a m → Post (IsReady a') (source m)

-- From where an instruction leaves the pointer to the marks.
pub IsReady-after :
    (R : ℕ → ℕ → Type 0) (a a' : AbstractInterpreter) (m : Machine) (o : Outcome)
    → IsReady a m
    → ((s' : State) → IsMove m.state s' → R m.state.pointer s'.pointer → HasRoom a' s')
    → Post (At R m) o
    → Post (IsReady a') o
IsReady-after R a a' m o r k h =
    Post-map
      (λ m' g. record {
        valid = g.0;
        room =
            k m'.state (record { before = r.valid.valid; after = g.0.valid; size = g.1.0 }) g.1.1;
      })
      o h

pub while_nonzero-same :
    (P : Machine → Type 0) (fuel : ℕ) (body body' : Machine → Outcome)
    → ((m : Machine) → P m → body m ≡ body' m)
    → ((m : Machine) → P m → Post P (body' m))
    → (m : Machine) → P m
    → while_nonzero fuel body m ≡ while_nonzero fuel body' m
unfolding while_nonzero
while_nonzero-same P zero body body' e h m p = refl
while_nonzero-same P (suc fuel) body body' e h m p = rw (e m p) (
    ap (λ t. with_result m.io (load m.state) (branch (done m) t))
      (bind_congr (body' m) _ _ (h m p) (while_nonzero-same P fuel body body' e h)))

module _ (fuel : ℕ) where
  abbrev EmitsRight : Instruction → AbstractInterpreter → Type 0
  EmitsRight i a =
      Yields (λ r. Agrees a r.1 (Native.exec fuel r.0) (Nested.exec fuel i))
        (emit abstract_interpreter true i a)

  -- An instruction that leaves the pointer where it is, and whose code needs no more.
  stays :
      (i : Instruction) (op : Op) (a : AbstractInterpreter)
      → IsFine i
      → ((p p' : ℕ) → Goes i p p' → p' ≡ p)
      → ((m : Machine) → IsReady a m → Native.exec fuel op m ≡ Nested.exec fuel i m)
      → Agrees a a (Native.exec fuel op) (Nested.exec fuel i)
  stays i op a f g same = record {
    stack = refl;
    same = same;
    after = λ m r.
        IsReady-after (Goes i) a a m _ r
          (λ s' v e. HasRoom-stay a m.state s' r.room v (g m.state.pointer s'.pointer e))
          (exec-Goes fuel i m f r.valid);
  }

  pub emit-Agrees : (i : Instruction) (a : AbstractInterpreter) → IsFine i → EmitsRight i a
  unfolding emit Native.exec Nested.exec abstract_interpreter Bounds.reset_left Bounds.reset_right
  emit-Agrees (Instruction.right n) a f = record {
    stack = loop_stack-move_right n a;
    same = λ m r.
        ap (λ x. with_result m.io x λ s. done (record { state = s; io = m.io }))
          (go_right-right n _ m.state r.valid.valid f.1 (move_right-proved n a m.state r.room));
    after = λ m r.
        IsReady-after (Goes (Instruction.right n)) a _ m _ r
          (λ s' v e. move_right-HasRoom a m.state s' r.room v n e)
          (exec-Goes fuel (Instruction.right n) m f r.valid);
  }
  emit-Agrees (Instruction.left n) a f = record {
    stack = loop_stack-move_left n a;
    same = λ m r.
        ap (λ x. with_result m.io x λ s. done (record { state = s; io = m.io }))
          (go_left-left n _ m.state r.valid.valid f.1 (move_left-proved n a m.state r.room));
    after = λ m r.
        IsReady-after (Goes (Instruction.left n)) a _ m _ r
          (λ s' v e. move_left-HasRoom a m.state s' r.room v n e.0 e.1)
          (exec-Goes fuel (Instruction.left n) m f r.valid);
  }
  emit-Agrees (Instruction.add n) a f =
      stays (Instruction.add n) (Op.add n) a f (λ p p' e. e) (λ m r. refl)
  emit-Agrees Instruction.in_ a f = stays Instruction.in_ Op.in_ a f (λ p p' e. e) (λ m r. refl)
  emit-Agrees Instruction.out a f = stays Instruction.out Op.out a f (λ p p' e. e) (λ m r. refl)
  emit-Agrees Instruction.set_zero a f =
      stays Instruction.set_zero Op.set_zero a f (λ p p' e. e) (λ m r. refl)
  emit-Agrees (Instruction.find_zero_right n) a f = record {
    stack = refl;
    same = λ m r.
        while_nonzero-same IsValidMachine fuel (on_state (go_right n true))
          (on_state (State.right n))
          (λ m' v.
            ap (λ x. with_result m'.io x λ s. done (record { state = s; io = m'.io }))
              (go_right-right n true m'.state v.valid f.1 (inl refl)))
          (λ m' v. on_state-Preserves (State.right n) m' v (right-Returns m'.state v.valid n)) m
          r.valid;
    after = λ m r.
        IsReady-after (Goes (Instruction.find_zero_right n)) a _ m _ r
          (λ s' v e. reset_right-HasRoom a m.state s' r.room v e)
          (exec-Goes fuel (Instruction.find_zero_right n) m f r.valid);
  }
  emit-Agrees (Instruction.find_zero_left n) a f = record {
    stack = refl;
    same = λ m r.
        while_nonzero-same IsValidMachine fuel (on_state (go_left n true)) (on_state (State.left n))
          (λ m' v.
            ap (λ x. with_result m'.io x λ s. done (record { state = s; io = m'.io }))
              (go_left-left n true m'.state v.valid f.1 (inl refl)))
          (λ m' v. on_state-Preserves (State.left n) m' v (left-Returns m'.state v.valid n)) m
          r.valid;
    after = λ m r.
        IsReady-after (Goes (Instruction.find_zero_left n)) a _ m _ r
          (λ s' v e. reset_left-HasRoom a m.state s' r.room v e)
          (exec-Goes fuel (Instruction.find_zero_left n) m f r.valid);
  }
  emit-Agrees (Instruction.offset_add_right n) a f =
      stays (Instruction.offset_add_right n)
        (Op.offset_add_right n (true && not (Bounds.check_right n a))) a f (λ p p' e. e)
        (λ m r.
          let (b, _, e, _) = load_valid m.state r.valid.valid in
          guarded-same m (transfer_right n _) (move_right n) b e (
            transfer_right-move_right n _ m.state r.valid.valid f.1 b e
              (check_right-proved n a m.state r.room)))
  emit-Agrees (Instruction.offset_add_left n) a f =
      stays (Instruction.offset_add_left n)
        (Op.offset_add_left n (true && not (Bounds.check_left n a))) a f (λ p p' e. e)
        (λ m r.
          let (b, _, e, _) = load_valid m.state r.valid.valid in
          guarded-same m (transfer_left n _) (move_left n) b e (
            transfer_left-move_left n _ m.state r.valid.valid f.1 b e
              (check_left-proved n a m.state r.room)))
  emit-Agrees (Instruction.jump_zero n) a f = absurd f
  emit-Agrees (Instruction.jump_not_zero n) a f = absurd f
