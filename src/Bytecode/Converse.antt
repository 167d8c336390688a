-- ===== src/Bytecode/Converse.antt =====
-- src/bytecode: from runs of the flat code to runs of the tree that it was compiled from.
use bf_rs.Prelude.{
  ℕ, zero, suc, ◌+◌, ◌≤◌, ◌≡◌, ◌≢◌, refl, sym, ap, subst, ◌∙◌, length, get_elem?, get_elem?_of_ge,
  some, ne→==, arith,
}
use bf_rs.Common.{Instruction, jump_zero, jump_not_zero, Result, ok, err, panic}
use bf_rs.State.{load}
use bf_rs.Machine.{
  Machine, Outcome, done, failed, panicked, out_of_fuel, ◌>>=◌, with_result, branch, while_nonzero,
}
use bf_rs.Tree
use bf_rs.Tree.{nil, ◌⨾◌, instr, loop, AllInstr, AllStatement, interpret_statement}
use bf_rs.Tree.Fuel.{⊑-eq}
use bf_rs.Peephole
use bf_rs.Peephole.{IsStraight}
use bf_rs.Peephole.Fuel.{exec-⊑}
use bf_rs.Peephole.Interpreter as Nested
use bf_rs.Peephole.Interpreter.{exec}
use bf_rs.Bytecode.{Program}
use bf_rs.Bytecode.Compiler.{compile}
use bf_rs.Bytecode.Interpreter.{step, run, interpret}
use bf_rs.Bytecode.Layout.{
  width, width_statement, flatten, flatten_statement, length-flatten, length-flatten_statement,
  compile-flatten,
}
use bf_rs.Bytecode.Steps.{Holds, Holds-left, Holds-right, loop-Holds, step-straight}
use bf_rs.Bytecode.Correct.{IsTest, run-step}

module _ (fuel more : ℕ) (enough : fuel ≤ more) (code : Program) where
  -- The rounds from `pc` do what `o` says, which does not want for fuel, and are not used up by it.
  abbrev Leaves : ℕ → ℕ → Machine → ℕ → Outcome → Type 0
  Leaves rounds pc m pc' o =
      (o ≢ out_of_fuel)
      × (left_over : ℕ) × (left_over ≤ rounds)
      × (run fuel rounds code pc m ≡ (o >>= run fuel left_over code pc'))

  Leaves-bind :
      (rounds pc pc₁ pc' : ℕ) (m : Machine) (o : Outcome) (f : Machine → Outcome)
      → run fuel rounds code pc m ≢ out_of_fuel
      → Leaves rounds pc m pc₁ o
      → ((m' : Machine) (k : ℕ)
          → k ≤ rounds
          → run fuel k code pc₁ m' ≢ out_of_fuel
          → Leaves k pc₁ m' pc' (f m'))
      → Leaves rounds pc m pc' (o >>= f)
  Leaves-bind rounds pc pc₁ pc' m (done m') f t (h, k, l, e) s =
      let (h', k', l', e') = s m' k l (λ x. t (e ∙ x)) in (h', k', omega arith, e ∙ e')
  Leaves-bind rounds pc pc₁ pc' m (failed x io) f t (h, k, l, e) s = (h, k, l, e)
  Leaves-bind rounds pc pc₁ pc' m (panicked io) f t (h, k, l, e) s = (h, k, l, e)
  Leaves-bind rounds pc pc₁ pc' m out_of_fuel f t r s = absurd (r.0 refl)

  Leaves-straight :
      (i : Instruction) (rounds pc : ℕ) (m : Machine)
      → IsStraight i
      → get_elem? code pc ≡ some i
      → run fuel rounds code pc m ≢ out_of_fuel
      → Leaves rounds pc m (pc + 1) (exec more i m)
  unfolding run
  Leaves-straight i zero pc m s e t = absurd (t refl)
  Leaves-straight i (suc k) pc m s e t =
      let go = run-step fuel code i pc k m e ∙ step-straight fuel i pc m (run fuel k code) s in
      let h : exec fuel i m ≢ out_of_fuel =
        λ x. t (go ∙ ap (λ o. o >>= run fuel k code (pc + 1)) x) in
      let e' : exec more i m ≡ exec fuel i m = ⊑-eq (exec-⊑ fuel more enough i m) h in
      (λ x. h (sym e' ∙ x), k, omega arith, go ∙ ap (λ o. o >>= run fuel k code (pc + 1)) (sym e'))

  Leaves-test :
      (first last pc rounds : ℕ) (m : Machine) (o : Outcome) (r : Result ℕ)
      → IsTest fuel code first last pc
      → load m.state ≡ r
      → run fuel (suc rounds) code pc m ≢ out_of_fuel
      → (run fuel rounds code (first + 1) m ≢ out_of_fuel
          → Leaves rounds (first + 1) m (last + 1) o)
      → Leaves (suc rounds) pc m (last + 1) (with_result m.io r (branch (done m) o))
  Leaves-test first last pc rounds m o (ok zero) t e h s =
      (λ x. cc, rounds, omega arith, t rounds m ∙ rw e refl)
  Leaves-test first last pc rounds m o (ok (suc b)) t e h s =
      let go : run fuel (suc rounds) code pc m ≡ run fuel rounds code (first + 1) m =
        t rounds m ∙ rw (e, ne→== (suc b) 0 (omega arith)) refl in
      let (h', k, l, e') = s (λ x. h (go ∙ x)) in (h', k, omega arith, go ∙ e')
  Leaves-test first last pc rounds m o (err x) t e h s =
      (λ y. cc, rounds, omega arith, t rounds m ∙ rw e refl)
  Leaves-test first last pc rounds m o panic t e h s =
      (λ y. cc, rounds, omega arith, t rounds m ∙ rw e refl)

  -- A round of the tree's loop takes a round of the flat code at least.
  Leaves-loop :
      (first last : ℕ) (body : Machine → Outcome) (bound : ℕ)
      → IsTest fuel code first last last
      → ((k : ℕ) (m : Machine)
          → k ≤ bound
          → run fuel k code (first + 1) m ≢ out_of_fuel
          → Leaves k (first + 1) m last (body m))
      → (tree_rounds rounds pc : ℕ) (m : Machine) → rounds ≤ tree_rounds
      → rounds ≤ bound
      → IsTest fuel code first last pc
      → run fuel rounds code pc m ≢ out_of_fuel
      → Leaves rounds pc m (last + 1) (while_nonzero tree_rounds body m)
  unfolding while_nonzero run
  Leaves-loop first last body bound back s g zero pc m l j t h = absurd (h refl)
  Leaves-loop first last body bound back s zero (suc rounds) pc m l j t h = absurd (omega arith)
  Leaves-loop first last body bound back s (suc g) (suc rounds) pc m l j t h =
      Leaves-test first last pc rounds m _ (load m.state) t refl h (λ h'.
        Leaves-bind rounds (first + 1) last (last + 1) m (body m) _ h' (s rounds m (omega arith) h')
          (λ m' k l' h₁.
            Leaves-loop first last body bound back s g k last m' (omega arith) (omega arith) back
              h₁))

  mutual
    unfolding Nested.interpret Tree.interpret flatten step

    Leaves-program :
        (p : Peephole.Program) (rounds pc : ℕ) (m : Machine)
        → rounds ≤ more
        → AllInstr IsStraight p
        → Holds code pc (flatten pc p)
        → run fuel rounds code pc m ≢ out_of_fuel
        → Leaves rounds pc m (pc + width p) (Nested.interpret more p m)
    Leaves-program nil rounds pc m l a h t =
        (λ x. cc, rounds, omega arith, ap (λ x. run fuel rounds code x m) (omega arith))
    Leaves-program (s ⨾ p) rounds pc m l a h t =
        let first = flatten_statement pc s in
        let pc₁ = pc + width_statement s in
        let e : pc + length first ≡ pc₁ = ap (λ n. pc + n) (length-flatten_statement pc s) in
        let e' : pc₁ + width p ≡ pc + (width_statement s + width p) = omega arith in
        subst (λ x. Leaves rounds pc m x (Nested.interpret more (s ⨾ p) m)) e'
          (Leaves-bind rounds pc pc₁ (pc₁ + width p) m (interpret_statement exec more s m)
            (Nested.interpret more p) t
            (Leaves-statement s rounds pc m l a.0 (Holds-left code pc first (flatten pc₁ p) h) t)
            (λ m' k l' t'.
              Leaves-program p k pc₁ m' (omega arith) a.1
                (subst (λ x. Holds code x (flatten pc₁ p)) e
                  (Holds-right code pc first (flatten pc₁ p) h))
                t'))

    Leaves-statement :
        (s : Peephole.Statement) (rounds pc : ℕ) (m : Machine)
        → rounds ≤ more
        → AllStatement IsStraight s
        → Holds code pc (flatten_statement pc s)
        → run fuel rounds code pc m ≢ out_of_fuel
        → Leaves rounds pc m (pc + width_statement s) (interpret_statement exec more s m)
    Leaves-statement (instr i) rounds pc m l a h t =
        Leaves-straight i rounds pc m a (ap (get_elem? code) (omega arith) ∙ h 0 i refl) t
    Leaves-statement (loop body) rounds pc m l a h t =
        let last = pc + 1 + width body in
        let (opened, closed, held) = loop-Holds code pc body h in
        subst (λ x. Leaves rounds pc m x (while_nonzero more (Nested.interpret more body) m))
          {x = last + 1} (omega arith)
          (Leaves-loop pc last (Nested.interpret more body) more
            (λ k m'. run-step fuel code (jump_not_zero pc) last k m' closed)
            (λ k m' l' t'. Leaves-program body k (pc + 1) m' l' a held t') more rounds pc m l l
            (λ k m'. run-step fuel code (jump_zero last) pc k m' opened) t)

at_the_end :
    (fuel rounds pc : ℕ) (code : Program) (o : Outcome)
    → length code ≤ pc
    → (o >>= run fuel rounds code (0 + pc)) ≢ out_of_fuel
    → (o >>= run fuel rounds code (0 + pc)) ≡ o
unfolding run
at_the_end fuel zero pc code (done m) l h = absurd (h refl)
at_the_end fuel (suc k) pc code (done m) l h = rw (get_elem?_of_ge code (0 + pc) (omega arith)) refl
at_the_end fuel k pc code (failed e io) l h = refl
at_the_end fuel k pc code (panicked io) l h = refl
at_the_end fuel k pc code out_of_fuel l h = refl

flatten-interpret :
    (fuel rounds : ℕ) (p : Peephole.Program) (m : Machine)
    → AllInstr IsStraight p
    → interpret fuel rounds (flatten 0 p) m ≢ out_of_fuel
    → Nested.interpret (fuel + rounds) p m ≡ interpret fuel rounds (flatten 0 p) m
unfolding interpret
flatten-interpret fuel rounds p m a t =
    let code = flatten 0 p in
    let (h, k, l, e) =
      Leaves-program fuel (fuel + rounds) (omega arith) code p rounds 0 m (omega arith) a
        (λ j i g. ap (get_elem? code) (omega arith) ∙ g) t in
    sym (
      e
      ∙ at_the_end fuel k (width p) code (Nested.interpret (fuel + rounds) p m)
          (omega (arith, length-flatten 0 p)) (λ x. t (e ∙ x)))

-- Let a tree without jumps compile, where its code has at most one instruction more than the
-- largest `Count`. If the code ends within some number of rounds, the tree has the same outcome
-- when each of its loops is given as many rounds more.
pub interpret-compile_rounds :
    (fuel rounds count_max : ℕ) (p : Peephole.Program) (code : Program) (m : Machine)
    → width p ≤ count_max + 1
    → AllInstr IsStraight p
    → compile count_max p ≡ ok code
    → interpret fuel rounds code m ≢ out_of_fuel
    → Nested.interpret (fuel + rounds) p m ≡ interpret fuel rounds code m
interpret-compile_rounds fuel rounds count_max p code m h a c t =
    let e : flatten 0 p ≡ code = let x = compile-flatten count_max p h in cc in
    subst (λ x. Nested.interpret (fuel + rounds) p m ≡ interpret fuel rounds x m) e
      (flatten-interpret fuel rounds p m a
        (subst (λ x. interpret fuel rounds x m ≢ out_of_fuel) (sym e) t))
