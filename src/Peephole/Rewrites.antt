-- ===== src/Peephole/Rewrites.antt =====
-- src/peephole/compiler.rs: the loops and the instructions that replace them.
use bf_rs.Prelude.{
  ℕ, ◌≤◌, ◌≡◌, refl, sym, ◌∙◌, ◌⊎◌, inl, inr, ◌&&◌, ◌||◌, ◌==◌, if◌then◌else◌, Option, none, some,
  arith,
}
use mathlib.Core.Path.{subst}
use mathlib.Core.Option.{some-injective}
use bf_rs.Common.{Instruction, left, right, add, set_zero, offset_add_right, offset_add_left}
use bf_rs.State.Valid.{isize_max}
use bf_rs.Machine.{Machine, while_nonzero}
use bf_rs.Machine.Laws.{IsValidMachine, while_nonzero-congr, bind-done}
use bf_rs.Tree
use bf_rs.Tree.{nil, ◌⨾◌, instr, loop, AllInstr, AllStatement, interpret_statement}
use bf_rs.Peephole.{Program}
use bf_rs.Peephole.Compiler.{
  set_zero_peephole, find_zero_peephole, offset_add_peephole, or_else, peephole, loop_or,
}
use bf_rs.Peephole.Interpreter.{exec, interpret}
use bf_rs.Peephole.Drain.{while-up_ones}
use bf_rs.Peephole.Offset.{while-round-right, while-round-left}
use bf_rs.Peephole.Safety.{IsFineUpTo, widen, exec-Preserves}

set_zero_test :
    (n : ℕ) (x i : Instruction)
    → (if n == 1 || n == 255 then some x else none) ≡ some i
    → ((n ≡ 1) ⊎ (n ≡ 255)) × (x ≡ i)
set_zero_test n x i h = ground arith

offset_add_test :
    (a b l r : ℕ) (x i : Instruction)
    → (if a == 255 && b == 1 && l == r then some x else none) ≡ some i
    → (a ≡ 255) × (b ≡ 1) × (l ≡ r) × (x ≡ i)
offset_add_test a b l r x i h = ground arith

or_else_cases :
    (o o' : Option Instruction) (i : Instruction)
    → or_else o o' ≡ some i
    → (o ≡ some i) ⊎ (o' ≡ some i)
unfolding or_else
or_else_cases (some j) o' i h = inl h
or_else_cases none o' i h = inr h

module _ (bound : ℕ) (small : bound ≤ isize_max) (fuel : ℕ) (enough : 256 ≤ fuel) where
  -- The instruction may stand for a loop over `body`.
  abbrev pub Replaces : Instruction → Program → Type 0
  Replaces i body =
      IsFineUpTo bound i
      × ((m : Machine)
          → IsValidMachine m
          → exec fuel i m ≡ while_nonzero fuel (interpret fuel body) m)

  abbrev Sound : (Program → Option Instruction) → Program → Type 0
  Sound f body =
      (i : Instruction) → AllInstr (IsFineUpTo bound) body → f body ≡ some i → Replaces i body

  one_instr :
      (j : Instruction)
      → IsFineUpTo bound j
      → (m : Machine) → IsValidMachine m
      → while_nonzero fuel (exec fuel j) m ≡ while_nonzero fuel (interpret fuel (instr j ⨾ nil)) m
  unfolding interpret Tree.interpret
  one_instr j f m v =
      while_nonzero-congr fuel (exec fuel j) _ (exec-Preserves fuel j (widen bound j small f))
        (λ m' _. sym (bind-done (exec fuel j m'))) m v

  set_zero-Sound : (body : Program) → Sound set_zero_peephole body
  unfolding set_zero_peephole exec interpret Tree.interpret
  set_zero-Sound (instr (add n) ⨾ nil) i f h =
      let (c, e) = set_zero_test n set_zero i h in
      subst (λ j. Replaces j (instr (add n) ⨾ nil)) e
        (tt, λ m v. sym (while-up_ones fuel n m enough v c) ∙ one_instr (add n) f.0 m v)
  set_zero-Sound _ i f h = cc

  find_zero-Sound : (body : Program) → Sound find_zero_peephole body
  unfolding find_zero_peephole exec interpret Tree.interpret
  find_zero-Sound (instr (right n) ⨾ nil) i f h =
      subst (λ j. Replaces j (instr (right n) ⨾ nil)) (some-injective _ _ h)
        (f.0, one_instr (right n) f.0)
  find_zero-Sound (instr (left n) ⨾ nil) i f h =
      subst (λ j. Replaces j (instr (left n) ⨾ nil)) (some-injective _ _ h)
        (f.0, one_instr (left n) f.0)
  find_zero-Sound _ i f h = cc

  offset_add-Sound : (body : Program) → Sound offset_add_peephole body
  unfolding offset_add_peephole exec interpret Tree.interpret
  offset_add-Sound (instr (add a) ⨾ instr (right l) ⨾ instr (add b) ⨾ instr (left r) ⨾ nil) i f h =
      let (ea, eb, er, e) = offset_add_test a b l r (offset_add_right l) i h in
      rw (ea, eb, ← er)
        (subst
          (λ j.
            Replaces j (instr (add 255) ⨾ instr (right l) ⨾ instr (add 1) ⨾ instr (left l) ⨾ nil))
          e
          (
            f.1.0,
            λ m v. sym (while-round-right fuel l m enough v f.1.0.0 (omega (arith, f.1.0.1))),
          ))
  offset_add-Sound (instr (add a) ⨾ instr (left l) ⨾ instr (add b) ⨾ instr (right r) ⨾ nil) i f h =
      let (ea, eb, er, e) = offset_add_test a b l r (offset_add_left l) i h in
      rw (ea, eb, ← er)
        (subst
          (λ j.
            Replaces j (instr (add 255) ⨾ instr (left l) ⨾ instr (add 1) ⨾ instr (right l) ⨾ nil))
          e (f.1.0, λ m v. sym (while-round-left fuel l m enough v f.1.0.0)))
  offset_add-Sound _ i f h = cc

  or_else-Sound :
      (f g : Program → Option Instruction) (body : Program)
      → Sound f body
      → Sound g body
      → Sound (λ b. or_else (f b) (g b)) body
  or_else-Sound f g body hf hg i a h = elim (or_else_cases (f body) (g body) i h) [
    | inl e ↦ hf i a e
    | inr e ↦ hg i a e
  ]

  peephole-Sound : (body : Program) → Sound peephole body
  unfolding peephole
  peephole-Sound body =
      or_else-Sound set_zero_peephole (λ b. or_else (find_zero_peephole b) (offset_add_peephole b))
        body (set_zero-Sound body)
        (or_else-Sound find_zero_peephole offset_add_peephole body (find_zero-Sound body)
          (offset_add-Sound body))

  -- What a loop becomes does what the loop does, and is fine.
  pub loop_or-peephole :
      (body : Program)
      → AllInstr (IsFineUpTo bound) body
      → AllStatement (IsFineUpTo bound) (loop_or body (peephole body))
        × ((m : Machine)
            → IsValidMachine m
            → interpret_statement exec fuel (loop_or body (peephole body)) m
              ≡ while_nonzero fuel (interpret fuel body) m)
  unfolding interpret Tree.interpret
  loop_or-peephole body f = go (peephole body) refl
    where
      go :
          (o : Option Instruction)
          → peephole body ≡ o
          → AllStatement (IsFineUpTo bound) (loop_or body o)
            × ((m : Machine)
                → IsValidMachine m
                → interpret_statement exec fuel (loop_or body o) m
                  ≡ while_nonzero fuel (interpret fuel body) m)
      go none e = (f, λ m v. refl)
      go (some i) e = peephole-Sound body i f e
