-- ===== src/Bytecode/Fuel.antt =====
-- src/bytecode/interpreter.rs: fuel and rounds of the flat code.
use bf_rs.Prelude.{ℕ, zero, suc, ◌≤◌, ◌≡◌, ◌≢◌, Option, none, some, get_elem?, arith}
use bf_rs.Common.{
  Instruction, left, right, add, in_, out, jump_zero, jump_not_zero, set_zero, offset_add_right,
  offset_add_left, find_zero_right, find_zero_left,
}
use bf_rs.State.{load}
use bf_rs.Machine.{Machine, Outcome, done, out_of_fuel}
use bf_rs.Tree.Fuel.{◌⊑◌, below, same, ⊑-eq, bind-⊑, with_result-⊑, while_nonzero-⊑}
use bf_rs.Bytecode.{Program}
use bf_rs.Bytecode.Interpreter.{step, run, interpret, at_end_or}

module _ (f g : ℕ) (l : f ≤ g) where
  step-⊑ :
      (i : Instruction) (pc : ℕ) (m : Machine) (k k' : ℕ → Machine → Outcome)
      → ((pc' : ℕ) (m' : Machine) → k pc' m' ⊑ k' pc' m')
      → step f i pc m k ⊑ step g i pc m k'
  unfolding step
  step-⊑ (left n) pc m k k' h = bind-⊑ _ _ same (h _)
  step-⊑ (right n) pc m k k' h = bind-⊑ _ _ same (h _)
  step-⊑ (add n) pc m k k' h = bind-⊑ _ _ same (h _)
  step-⊑ in_ pc m k k' h = bind-⊑ _ _ same (h _)
  step-⊑ out pc m k k' h = bind-⊑ _ _ same (h _)
  step-⊑ (jump_zero a) pc m k k' h = with_result-⊑ m.io (load m.state) _ _ (λ b. h _ m)
  step-⊑ (jump_not_zero a) pc m k k' h = with_result-⊑ m.io (load m.state) _ _ (λ b. h _ m)
  step-⊑ set_zero pc m k k' h = bind-⊑ _ _ same (h _)
  step-⊑ (offset_add_right n) pc m k k' h = bind-⊑ _ _ same (h _)
  step-⊑ (offset_add_left n) pc m k k' h = bind-⊑ _ _ same (h _)
  step-⊑ (find_zero_right n) pc m k k' h =
      bind-⊑ _ _ (while_nonzero-⊑ f g _ _ l (λ m'. same) m) (h _)
  step-⊑ (find_zero_left n) pc m k k' h =
      bind-⊑ _ _ (while_nonzero-⊑ f g _ _ l (λ m'. same) m) (h _)

  at_end_or-⊑ :
      (o : Outcome) (x y : Instruction → Outcome) (i : Option Instruction)
      → ((j : Instruction) → x j ⊑ y j)
      → at_end_or o x i ⊑ at_end_or o y i
  at_end_or-⊑ o x y none h = same
  at_end_or-⊑ o x y (some j) h = h j

  run-⊑ :
      (rounds more : ℕ) (code : Program)
      → rounds ≤ more
      → (pc : ℕ) (m : Machine) → run f rounds code pc m ⊑ run g more code pc m
  unfolding run
  run-⊑ zero more code h pc m = below
  run-⊑ (suc rounds) zero code h pc m = absurd (omega arith)
  run-⊑ (suc rounds) (suc more) code h pc m =
      at_end_or-⊑ (done m) _ _ (get_elem? code pc)
        (λ i. step-⊑ i pc m _ _ (run-⊑ rounds more code (omega arith)))

-- Flat code that ends within some number of rounds, with some number for each loop inside a round,
-- has the same outcome with more of both.
pub interpret_more_rounds :
    (f g rounds more : ℕ) (code : Program) (m : Machine)
    → f ≤ g
    → rounds ≤ more
    → interpret f rounds code m ≢ out_of_fuel
    → interpret g more code m ≡ interpret f rounds code m
unfolding interpret
interpret_more_rounds f g rounds more code m l h t = ⊑-eq (run-⊑ f g l rounds more code h 0 m) t
