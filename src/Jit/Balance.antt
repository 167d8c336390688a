-- ===== src/Jit/Balance.antt =====
-- src/jit/loop_balance.rs: what a balance says of the pointer.
pub mod Sound
use bf_rs.Prelude.{
  ℕ, ◌+◌, ◌-◌, ◌%◌, ◌≤◌, ◌<◌, ◌≡◌, refl, sym, subst, ◌∙◌, Bool, true, false, ◌&&◌, Bool-cases, inl,
  inr, if◌then◌else◌, arith,
}
use bf_rs.Common.{
  Instruction, left, right, add, in_, out, jump_zero, jump_not_zero, set_zero, offset_add_right,
  offset_add_left, find_zero_right, find_zero_left,
}
use bf_rs.Common.Laws.{Yields, Yields-bind, Yields-map}
use bf_rs.State.{usize_mod}
use bf_rs.State.Valid.{isize_max}
use bf_rs.Machine.{Machine, Outcome, while_nonzero}
use bf_rs.Machine.Laws.{IsValidMachine, Post, Post-bind}
use bf_rs.Tree
use bf_rs.Tree.{nil, ◌⨾◌, instr, loop, AllInstr, AllStatement, interpret_statement}
use bf_rs.Peephole
use bf_rs.Peephole.Interpreter.{exec, interpret}
use bf_rs.Peephole.Safety.{IsFine}
use bf_rs.Jit.LoopBalance.{
  LoopBalance, exact, right_only, left_only, unknown, is_balanced, is_right_only, is_left_only,
  add_right, add_left, add_loop, add_instruction, analyze_into, analyze_statement, analyze_loop,
}
use bf_rs.Jit.Moves.Instructions.{At, Post-map, Goes, exec-Goes, while_nonzero-Post}

-- What a balance says of the pointer before and after.
abbrev pub Moves : LoopBalance → ℕ → ℕ → Type 0
Moves (exact disp) p p' = (disp < usize_mod) × (p' ≡ (p + disp) % usize_mod)
Moves right_only p p' = p ≤ p'
Moves left_only p p' = p' ≤ p
Moves unknown p p' = Unit

-- What it says of any number of rounds.
pub record Repeats (b : LoopBalance) (p p' : ℕ) : Type 0 where
  pub balanced : is_balanced b ≡ true → p' ≡ p
  pub rightwards : is_right_only b ≡ true → p ≤ p'
  pub leftwards : is_left_only b ≡ true → p' ≤ p

pub Moves-Repeats :
    (b : LoopBalance) (p p' : ℕ) → p ≤ isize_max → p' ≤ isize_max → Moves b p p' → Repeats b p p'
unfolding is_balanced is_right_only is_left_only
Moves-Repeats (exact d) p p' h k (l, e) = record {
  balanced = λ x. ground arith;
  rightwards = λ x. ground arith;
  leftwards = λ x. ground arith;
}
Moves-Repeats right_only p p' h k e = record {
  balanced = λ x. absurd (cc);
  rightwards = λ x. e;
  leftwards = λ x. absurd (cc);
}
Moves-Repeats left_only p p' h k e = record {
  balanced = λ x. absurd (cc);
  rightwards = λ x. absurd (cc);
  leftwards = λ x. e;
}
Moves-Repeats unknown p p' h k e = record {
  balanced = λ x. absurd (cc);
  rightwards = λ x. absurd (cc);
  leftwards = λ x. absurd (cc);
}

pub Repeats-refl : (b : LoopBalance) (p : ℕ) → Repeats b p p
Repeats-refl b p = record {
  balanced = λ x. refl;
  rightwards = λ x. omega arith;
  leftwards = λ x. omega arith;
}

pub Repeats-trans : (b : LoopBalance) (p q r : ℕ) → Repeats b p q → Repeats b q r → Repeats b p r
Repeats-trans b p q r f g = record {
  balanced = λ x. g.balanced x ∙ f.balanced x;
  rightwards = λ x. let h = f.rightwards x in let k = g.rightwards x in omega arith;
  leftwards = λ x. let h = f.leftwards x in let k = g.leftwards x in omega arith;
}

pub add_right-Moves :
    (n : ℕ) (b : LoopBalance) (p q : ℕ)
    → q + n ≤ isize_max
    → Moves b p q
    → Moves (add_right n b) p (q + n)
unfolding add_right
add_right-Moves n (exact d) p q h e = (omega arith, omega (arith, e.0, e.1))
add_right-Moves n right_only p q h e = omega arith
add_right-Moves n left_only p q h e = tt
add_right-Moves n unknown p q h e = tt

pub add_left-Moves :
    (n : ℕ) (b : LoopBalance) (p q : ℕ)
    → q ≤ isize_max
    → n ≤ q
    → Moves b p q
    → Moves (add_left n b) p (q - n)
unfolding add_left
add_left-Moves n (exact d) p q h k e = (omega arith, omega (arith, e.0, e.1))
add_left-Moves n left_only p q h k e = omega arith
add_left-Moves n right_only p q h k e = tt
add_left-Moves n unknown p q h k e = tt

pub find_right-Moves :
    (b : LoopBalance) (p q r : ℕ)
    → p ≤ isize_max
    → q ≤ isize_max
    → q ≤ r
    → Moves b p q
    → Moves (if is_right_only b then right_only else unknown) p r
find_right-Moves b p q r h k l e = elim (Bool-cases (is_right_only b)) [
  | inl x ↦ let g = (Moves-Repeats b p q h k e).rightwards x in rw x (omega arith)
  | inr x ↦ rw x tt
]

pub find_left-Moves :
    (b : LoopBalance) (p q r : ℕ)
    → p ≤ isize_max
    → q ≤ isize_max
    → r ≤ q
    → Moves b p q
    → Moves (if is_left_only b then left_only else unknown) p r
find_left-Moves b p q r h k l e = elim (Bool-cases (is_left_only b)) [
  | inl x ↦ let g = (Moves-Repeats b p q h k e).leftwards x in rw x (omega arith)
  | inr x ↦ rw x tt
]

and_true : (a b : Bool) → (a && b) ≡ true → (a ≡ true) × (b ≡ true)
and_true true true h = (refl, refl)
and_true true false h = absurd (cc)
and_true false b h = absurd (cc)

one_way :
    (b body : LoopBalance) (p q r : ℕ)
    → p ≤ isize_max
    → q ≤ isize_max
    → Repeats body q r
    → Moves b p q
    → Moves
        (if is_right_only b && is_right_only body
          then right_only
          else if is_left_only b && is_left_only body
          then left_only
          else unknown)
        p
        r
one_way b body p q r h k f e = elim (Bool-cases (is_right_only b && is_right_only body)) [
  | inl x ↦
      let (x₁, x₂) = and_true (is_right_only b) (is_right_only body) x in
      let g = f.rightwards x₂ in
      let g' = (Moves-Repeats b p q h k e).rightwards x₁ in rw x (omega arith)
  | inr x ↦ rw x (elim (Bool-cases (is_left_only b && is_left_only body)) [
    | inl y ↦
        let (y₁, y₂) = and_true (is_left_only b) (is_left_only body) y in
        let g = f.leftwards y₂ in
        let g' = (Moves-Repeats b p q h k e).leftwards y₁ in rw y (omega arith)
    | inr y ↦ rw y tt
  ])
]

pub add_loop-Moves :
    (body b : LoopBalance) (p q r : ℕ)
    → p ≤ isize_max
    → q ≤ isize_max
    → Repeats body q r
    → Moves b p q
    → Moves (add_loop body b) p r
unfolding add_loop
add_loop-Moves body (exact d) p q r h k f e = elim (Bool-cases (is_balanced body)) [
  | inl x ↦ rw x (subst (Moves (exact d) p) (sym (f.balanced x)) e)
  | inr x ↦ rw x (one_way (exact d) body p q r h k f e)
]
add_loop-Moves body right_only p q r h k f e = elim (Bool-cases (is_right_only body)) [
  | inl x ↦ let g = f.rightwards x in rw x (omega arith)
  | inr x ↦ rw x tt
]
add_loop-Moves body left_only p q r h k f e = elim (Bool-cases (is_left_only body)) [
  | inl x ↦ let g = f.leftwards x in rw x (omega arith)
  | inr x ↦ rw x tt
]
add_loop-Moves body unknown p q r h k f e = tt
