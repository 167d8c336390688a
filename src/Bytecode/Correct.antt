-- ===== src/Bytecode/Correct.antt =====
-- src/bytecode: from runs of the tree to runs of the flat code that it is compiled to.
use bf_rs.Prelude.{
  ℕ, zero, suc, ◌+◌, ◌≤◌, ◌≡◌, ◌≢◌, refl, ap, subst, ◌∙◌, length, get_elem?, get_elem?_of_ge, some,
  ◌==◌, ne→==, if◌then◌else◌, arith,
}
use bf_rs.Common.{Instruction, jump_zero, jump_not_zero, Result, ok, err, panic}
use bf_rs.State.{load}
use bf_rs.Machine.{
  Machine, Outcome, done, failed, panicked, out_of_fuel, ◌>>=◌, with_result, branch, while_nonzero,
}
use bf_rs.Tree
use bf_rs.Tree.{nil, ◌⨾◌, instr, loop, AllInstr, AllStatement, interpret_statement}
use bf_rs.Peephole
use bf_rs.Peephole.{IsStraight}
use bf_rs.Peephole.Interpreter as Nested
use bf_rs.Peephole.Interpreter.{exec}
use bf_rs.Bytecode.{Program}
use bf_rs.Bytecode.Interpreter.{step, run, interpret}
use bf_rs.Bytecode.Layout.{
  width, width_statement, flatten, flatten_statement, length-flatten, length-flatten_statement,
  compile-flatten,
}
use bf_rs.Bytecode.Compiler.{compile}
use bf_rs.Common.Laws.{Yields}
use bf_rs.Bytecode.Steps.{Holds, Holds-left, Holds-right, loop-Holds, step-straight}

module _ (fuel : ℕ) (code : Program) where
  -- From `pc` some number of rounds does what `o` says, and goes on at `pc'` where `o` is `done`.
  abbrev Reaches : ℕ → Machine → ℕ → Outcome → Type 0
  Reaches pc m pc' o =
      (n : ℕ) × ((k : ℕ) → run fuel (n + k) code pc m ≡ (o >>= run fuel k code pc'))

  Reaches-bind :
      (pc pc₁ pc' : ℕ) (m : Machine) (o : Outcome) (f : Machine → Outcome)
      → (o >>= f) ≢ out_of_fuel
      → (o ≢ out_of_fuel → Reaches pc m pc₁ o)
      → ((m' : Machine) → f m' ≢ out_of_fuel → Reaches pc₁ m' pc' (f m'))
      → Reaches pc m pc' (o >>= f)
  Reaches-bind pc pc₁ pc' m (done m') f h r s =
      let (n, e) = r (λ x. cc) in
      let (n', e') = s m' h in
      (n + n', λ k. ap (λ t. run fuel t code pc m) (omega arith) ∙ e (n' + k) ∙ e' k)
  Reaches-bind pc pc₁ pc' m (failed x io) f h r s = r h
  Reaches-bind pc pc₁ pc' m (panicked io) f h r s = r h
  Reaches-bind pc pc₁ pc' m out_of_fuel f h r s = absurd (h refl)

  one_round : (pc k : ℕ) (m : Machine) → run fuel (1 + k) code pc m ≡ run fuel (suc k) code pc m
  one_round pc k m = ap (λ n. run fuel n code pc m) (omega arith)

  -- One round at an instruction that the code holds.
  pub run-step :
      (i : Instruction) (pc k : ℕ) (m : Machine)
      → get_elem? code pc ≡ some i
      → run fuel (suc k) code pc m ≡ step fuel i pc m (run fuel k code)
  unfolding run
  run-step i pc k m e = rw e

  Reaches-straight :
      (i : Instruction) (pc : ℕ) (m : Machine)
      → IsStraight i
      → get_elem? code pc ≡ some i
      → Reaches pc m (pc + 1) (exec fuel i m)
  Reaches-straight i pc m s e = (
    1,
    λ k. one_round pc k m ∙ run-step i pc k m e ∙ step-straight fuel i pc m (run fuel k code) s,
  )

  -- The two jumps of a loop test the same: over the last jump, or behind the first.
  abbrev pub IsTest : ℕ → ℕ → ℕ → Type 0
  IsTest first last pc =
      (k : ℕ) (m : Machine)
      → run fuel (suc k) code pc m ≡ (
          with_result m.io (load m.state)
            λ b. run fuel k code ((if b == 0 then last else first) + 1) m)

  Reaches-test :
      (first last pc : ℕ) (m : Machine) (o : Outcome) (r : Result ℕ)
      → IsTest first last pc
      → load m.state ≡ r
      → with_result m.io r (branch (done m) o) ≢ out_of_fuel
      → (o ≢ out_of_fuel → Reaches (first + 1) m (last + 1) o)
      → Reaches pc m (last + 1) (with_result m.io r (branch (done m) o))
  Reaches-test first last pc m o (ok zero) t e h s = (1, λ k. one_round pc k m ∙ t k m ∙ rw e refl)
  Reaches-test first last pc m o (ok (suc b)) t e h s =
      let (n, e') = s h in
      (
        1 + n,
        λ k.
            ap (λ x. run fuel x code pc m) (omega arith)
            ∙ t (n + k) m
            ∙ rw (e, ne→== (suc b) 0 (omega arith)) (e' k),
      )
  Reaches-test first last pc m o (err x) t e h s = (1, λ k. one_round pc k m ∙ t k m ∙ rw e refl)
  Reaches-test first last pc m o panic t e h s = (1, λ k. one_round pc k m ∙ t k m ∙ rw e refl)

  Reaches-loop :
      (first last : ℕ) (body : Machine → Outcome)
      → IsTest first last last
      → ((m : Machine) → body m ≢ out_of_fuel → Reaches (first + 1) m last (body m))
      → (rounds pc : ℕ) (m : Machine) → IsTest first last pc
      → while_nonzero rounds body m ≢ out_of_fuel
      → Reaches pc m (last + 1) (while_nonzero rounds body m)
  unfolding while_nonzero
  Reaches-loop first last body back s zero pc m t h = absurd (h refl)
  Reaches-loop first last body back s (suc rounds) pc m t h =
      Reaches-test first last pc m _ (load m.state) t refl h (λ h'.
        Reaches-bind (first + 1) last (last + 1) m (body m) _ h' (s m)
          (λ m' h₁. Reaches-loop first last body back s rounds last m' back h₁))

  -- Behind the last instruction the run ends.
  at_the_end :
      (pc k : ℕ) → length code ≤ pc → (o : Outcome) → (o >>= run fuel (suc k) code (0 + pc)) ≡ o
  unfolding run
  at_the_end pc k h (done m) = rw (get_elem?_of_ge code (0 + pc) (omega arith)) refl
  at_the_end pc k h (failed e io) = refl
  at_the_end pc k h (panicked io) = refl
  at_the_end pc k h out_of_fuel = refl

  mutual
    unfolding Nested.interpret Tree.interpret flatten step

    Reaches-program :
        (p : Peephole.Program) (pc : ℕ) (m : Machine)
        → AllInstr IsStraight p
        → Holds code pc (flatten pc p)
        → Nested.interpret fuel p m ≢ out_of_fuel
        → Reaches pc m (pc + width p) (Nested.interpret fuel p m)
    Reaches-program nil pc m a h t = (
      0,
      λ k.
          ap (λ n. run fuel n code pc m) (omega arith)
          ∙ ap (λ x. run fuel k code x m) (omega arith),
    )
    Reaches-program (s ⨾ p) pc m a h t =
        let first = flatten_statement pc s in
        let pc₁ = pc + width_statement s in
        let e : pc + length first ≡ pc₁ = ap (λ n. pc + n) (length-flatten_statement pc s) in
        let e' : pc₁ + width p ≡ pc + (width_statement s + width p) = omega arith in
        subst (λ x. Reaches pc m x (Nested.interpret fuel (s ⨾ p) m)) e'
          (Reaches-bind pc pc₁ (pc₁ + width p) m (interpret_statement exec fuel s m)
            (Nested.interpret fuel p) t
            (Reaches-statement s pc m a.0 (Holds-left code pc first (flatten pc₁ p) h))
            (λ m'. Reaches-program p pc₁ m' a.1 (
              subst (λ x. Holds code x (flatten pc₁ p)) e
                (Holds-right code pc first (flatten pc₁ p) h))))

    Reaches-statement :
        (s : Peephole.Statement) (pc : ℕ) (m : Machine)
        → AllStatement IsStraight s
        → Holds code pc (flatten_statement pc s)
        → interpret_statement exec fuel s m ≢ out_of_fuel
        → Reaches pc m (pc + width_statement s) (interpret_statement exec fuel s m)
    Reaches-statement (instr i) pc m a h t =
        Reaches-straight i pc m a (ap (get_elem? code) (omega arith) ∙ h 0 i refl)
    Reaches-statement (loop body) pc m a h t =
        let last = pc + 1 + width body in
        let (opened, closed, held) = loop-Holds code pc body h in
        subst (λ x. Reaches pc m x (while_nonzero fuel (Nested.interpret fuel body) m))
          {x = last + 1} (omega arith)
          (Reaches-loop pc last (Nested.interpret fuel body)
            (λ k m'. run-step (jump_not_zero pc) last k m' closed)
            (λ m'. Reaches-program body (pc + 1) m' a held) fuel pc m
            (λ k m'. run-step (jump_zero last) pc k m' opened) t)

-- A tree without jumps whose run does not want for fuel is laid out to flat code that has, from
-- some number of rounds on, the same outcome.
pub interpret-flatten :
    (fuel : ℕ) (p : Peephole.Program) (m : Machine)
    → AllInstr IsStraight p
    → Nested.interpret fuel p m ≢ out_of_fuel
    → (n : ℕ) × ((k : ℕ) → interpret fuel (n + suc k) (flatten 0 p) m ≡ Nested.interpret fuel p m)
unfolding interpret
interpret-flatten fuel p m a h =
    let code = flatten 0 p in
    let (n, e) =
      Reaches-program fuel code p 0 m a (λ j i g. ap (get_elem? code) (omega arith) ∙ g) h in
    (
      n,
      λ k.
          e (suc k)
          ∙ at_the_end fuel code (width p) k (omega (arith, length-flatten 0 p))
              (Nested.interpret fuel p m),
    )

-- A tree without jumps, whose code has at most one instruction more than the largest `Count` and
-- whose run does not want for fuel, compiles. From some number of rounds on the flat code has the
-- outcome of the tree.
pub interpret-compile_bytecode :
    (fuel count_max : ℕ) (p : Peephole.Program) (m : Machine)
    → width p ≤ count_max + 1
    → AllInstr IsStraight p
    → Nested.interpret fuel p m ≢ out_of_fuel
    → Yields
        (λ code.
          (n : ℕ) × ((k : ℕ) → interpret fuel (n + suc k) code m ≡ Nested.interpret fuel p m))
        (compile count_max p)
interpret-compile_bytecode fuel count_max p m h a t =
    rw (compile-flatten count_max p h) (interpret-flatten fuel p m a t)
