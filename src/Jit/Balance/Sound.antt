-- ===== src/Jit/Balance/Sound.antt =====
-- src/jit/loop_balance.rs: the analysis of a loop and the interpreter.
use bf_rs.Prelude.{ℕ, ◌≤◌, ◌≡◌, refl, sym, subst, ◌∙◌, arith}
use bf_rs.Common.{
  Instruction, left, right, add, in_, out, jump_zero, jump_not_zero, set_zero, offset_add_right,
  offset_add_left, find_zero_right, find_zero_left,
}
use bf_rs.Common.Laws.{Yields, Yields-bind, Yields-map}
use bf_rs.State.Valid.{isize_max}
use bf_rs.Machine.{Machine, Outcome, while_nonzero}
use bf_rs.Machine.Laws.{IsValidMachine, Post, Post-bind}
use bf_rs.Tree
use bf_rs.Tree.{nil, ◌⨾◌, instr, loop, AllInstr, AllStatement, interpret_statement}
use bf_rs.Peephole
use bf_rs.Peephole.Interpreter.{exec, interpret}
use bf_rs.Peephole.Safety.{IsFine}
use bf_rs.Jit.LoopBalance.{
  LoopBalance, exact, add_right, add_left, add_loop, add_instruction, analyze_into,
  analyze_statement, analyze_loop,
}
use bf_rs.Jit.Moves.Instructions.{At, Post-map, Goes, exec-Goes, while_nonzero-Post}
use bf_rs.Jit.Balance.{
  Moves, Repeats, Moves-Repeats, Repeats-refl, Repeats-trans, add_right-Moves, add_left-Moves,
  find_right-Moves, find_left-Moves, add_loop-Moves,
}

At-then :
    (R : ℕ → ℕ → Type 0) (b c : LoopBalance) (m₀ m : Machine) (o : Outcome)
    → IsValidMachine m₀
    → At (Moves b) m₀ m
    → ((p q r : ℕ)
        → p ≤ isize_max
        → q ≤ isize_max
        → r ≤ isize_max
        → Moves b p q
        → R q r
        → Moves c p r)
    → Post (At R m) o
    → Post (At (Moves c) m₀) o
At-then R b c m₀ m o v a k h =
    Post-map
      (λ m' g. (
        g.0,
        (
          g.1.0 ∙ a.1.0,
          k m₀.state.pointer m.state.pointer m'.state.pointer
              (omega (arith, v.valid.inside, v.valid.allocated))
              (omega (arith, a.0.valid.inside, a.0.valid.allocated))
              (omega (arith, g.0.valid.inside, g.0.valid.allocated)) a.1.1 g.1.1,
        ),
      ))
      o h

-- Any number of rounds of a loop whose body has the balance.
while_nonzero-Repeats :
    (fuel : ℕ) (b : LoopBalance) (body : Machine → Outcome)
    → ((m : Machine) → IsValidMachine m → Post (At (Moves b) m) (body m))
    → (m : Machine) → IsValidMachine m
    → Post (At (Repeats b) m) (while_nonzero fuel body m)
while_nonzero-Repeats fuel b body h m v =
    while_nonzero-Post (At (Repeats b) m) (λ m' a. a.0) fuel body
      (λ m' a.
        Post-map
          (λ m'' g. (
            g.0,
            (
              g.1.0 ∙ a.1.0,
              Repeats-trans b m.state.pointer m'.state.pointer m''.state.pointer a.1.1 (
                  Moves-Repeats b m'.state.pointer m''.state.pointer
                    (omega (arith, a.0.valid.inside, a.0.valid.allocated))
                    (omega (arith, g.0.valid.inside, g.0.valid.allocated)) g.1.1),
            ),
          ))
          (body m') (h m' a.0))
      m (v, (refl, Repeats-refl b m.state.pointer))

At-start : (m : Machine) → IsValidMachine m → At (Moves (exact 0)) m m
At-start m v = (v, (refl, (omega arith, omega (arith, v.valid.inside, v.valid.allocated))))

module _ (fuel : ℕ) where
  -- Whatever the machine, the statements take the one balance to the other.
  abbrev Takes : LoopBalance → (Machine → Outcome) → LoopBalance → Type 0
  Takes b f c =
      (m₀ m : Machine) → IsValidMachine m₀ → At (Moves b) m₀ m → Post (At (Moves c) m₀) (f m)

  -- An instruction that leaves the pointer where it is.
  stays :
      (i : Instruction) (b : LoopBalance)
      → IsFine i
      → ((p p' : ℕ) → Goes i p p' → p' ≡ p)
      → Takes b (exec fuel i) b
  stays i b f s m₀ m v a =
      At-then (Goes i) b b m₀ m _ v a (λ p q r h k l e g. subst (Moves b p) (sym (s q r g)) e)
        (exec-Goes fuel i m f a.0)

  add_instruction-Takes :
      (i : Instruction) (b : LoopBalance)
      → IsFine i
      → Yields (Takes b (exec fuel i)) (add_instruction i b)
  unfolding add_instruction
  add_instruction-Takes (right n) b f = λ m₀ m v a.
      At-then (Goes (right n)) b (add_right n b) m₀ m _ v a
        (λ p q r h k l e g.
          subst (Moves (add_right n b) p) (sym g) (add_right-Moves n b p q (omega arith) e))
        (exec-Goes fuel (right n) m f a.0)
  add_instruction-Takes (left n) b f = λ m₀ m v a.
      At-then (Goes (left n)) b (add_left n b) m₀ m _ v a
        (λ p q r h k l e g.
          subst (Moves (add_left n b) p) (sym g.1) (add_left-Moves n b p q k g.0 e))
        (exec-Goes fuel (left n) m f a.0)
  add_instruction-Takes (find_zero_right n) b f = λ m₀ m v a.
      At-then (Goes (find_zero_right n)) b _ m₀ m _ v a
        (λ p q r h k l e g. find_right-Moves b p q r h k g e)
        (exec-Goes fuel (find_zero_right n) m f a.0)
  add_instruction-Takes (find_zero_left n) b f = λ m₀ m v a.
      At-then (Goes (find_zero_left n)) b _ m₀ m _ v a
        (λ p q r h k l e g. find_left-Moves b p q r h k g e)
        (exec-Goes fuel (find_zero_left n) m f a.0)
  add_instruction-Takes (add n) b f = stays (add n) b f (λ p p' g. g)
  add_instruction-Takes in_ b f = stays in_ b f (λ p p' g. g)
  add_instruction-Takes out b f = stays out b f (λ p p' g. g)
  add_instruction-Takes set_zero b f = stays set_zero b f (λ p p' g. g)
  add_instruction-Takes (offset_add_right n) b f = stays (offset_add_right n) b f (λ p p' g. g)
  add_instruction-Takes (offset_add_left n) b f = stays (offset_add_left n) b f (λ p p' g. g)
  add_instruction-Takes (jump_zero _) b f = absurd f
  add_instruction-Takes (jump_not_zero _) b f = absurd f

  mutual
    unfolding analyze_into interpret Tree.interpret

    analyze_into-Takes :
        (p : Peephole.Program) (b : LoopBalance)
        → AllInstr IsFine p
        → Yields (Takes b (interpret fuel p)) (analyze_into p b)
    analyze_into-Takes nil b f = λ m₀ m v a. a
    analyze_into-Takes (s ⨾ p) b f =
        Yields-bind _ (analyze_statement s b) (analyze_into p) (analyze_statement-Takes s b f.0)
          (λ c h.
            Yields-map
              (λ d k m₀ m v a.
                Post-bind (At (Moves d) m₀) (interpret_statement exec fuel s m) (interpret fuel p)
                  (h m₀ m v a) (λ m' a'. k m₀ m' v a'))
              (analyze_into p c) (analyze_into-Takes p c f.1))

    analyze_statement-Takes :
        (s : Peephole.Statement) (b : LoopBalance)
        → AllStatement IsFine s
        → Yields (Takes b (interpret_statement exec fuel s)) (analyze_statement s b)
    analyze_statement-Takes (instr i) b f = add_instruction-Takes i b f
    analyze_statement-Takes (loop body) b f =
        Yields-bind _ (analyze_into body (exact 0)) _ (analyze_into-Takes body (exact 0) f)
          (λ c h m₀ m v a.
            At-then (Repeats c) b (add_loop c b) m₀ m _ v a
              (λ p q r i k l e g. add_loop-Moves c b p q r i k g e)
              (while_nonzero-Repeats fuel c (interpret fuel body)
                (λ m' v'. h m' m' v' (At-start m' v')) m a.0))

-- The analysis of a body without jumps, whose amounts are bytes and whose offsets are positive
-- and no more than the largest slice, returns a balance. From any valid machine the body does not
-- panic, and where it ends, the machine is valid, the memory has kept its size, and the pointer
-- is where the balance says.
pub analyze_loop-Moves :
    (fuel : ℕ) (body : Peephole.Program)
    → AllInstr IsFine body
    → Yields
        (λ b. (m : Machine) → IsValidMachine m → Post (At (Moves b) m) (interpret fuel body m))
        (analyze_loop body)
unfolding analyze_loop
analyze_loop-Moves fuel body f =
    Yields-map (λ b h m v. h m m v (At-start m v)) (analyze_into body (exact 0))
      (analyze_into-Takes fuel body (exact 0) f)
