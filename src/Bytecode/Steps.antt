-- ===== src/Bytecode/Steps.antt =====
-- src/bytecode/interpreter.rs: one round at an instruction that the code holds.
use bf_rs.Prelude.{
  ℕ, zero, suc, ◌+◌, ◌≡◌, refl, ap, ◌∙◌, [], ◌∷◌, ◌++◌, length, get_elem?, some, ◌==◌,
  if◌then◌else◌, arith,
}
use bf_rs.Common
use bf_rs.Common.{
  Instruction, left, right, add, in_, out, jump_zero, jump_not_zero, set_zero, offset_add_right,
  offset_add_left, find_zero_right, find_zero_left, Result, ok, err, panic,
}
use bf_rs.State
use bf_rs.State.{State, load}
use bf_rs.Machine.{Machine, Outcome, done, ◌>>=◌, with_result, on_state}
use bf_rs.Peephole.{IsStraight}
use bf_rs.Peephole.Interpreter as Nested
use bf_rs.Peephole.Interpreter.{exec}
use bf_rs.Bytecode.{Program}
use bf_rs.Peephole
use bf_rs.Tree.{loop}
use bf_rs.Bytecode.Layout.{width, flatten, flatten_statement, length-flatten}
use bf_rs.Bytecode.Interpreter.{step}

-- The code holds `part` from `pc` on.
abbrev pub Holds : Program → ℕ → Program → Type 0
Holds code pc part =
    (j : ℕ) (i : Instruction) → get_elem? part j ≡ some i → get_elem? code (pc + j) ≡ some i

get_elem?-append_right :
    (xs ys : Program) (j : ℕ) → get_elem? (xs ++ ys) (length xs + j) ≡ get_elem? ys j
get_elem?-append_right [] ys j = ap (get_elem? ys) (omega arith)
get_elem?-append_right (x ∷ xs) ys j =
    ap (get_elem? (x ∷ (xs ++ ys))) {y = suc (length xs + j)} (omega arith)
    ∙ get_elem?-append_right xs ys j

get_elem?-append_some :
    (xs ys : Program) (j : ℕ) (i : Instruction)
    → get_elem? xs j ≡ some i
    → get_elem? (xs ++ ys) j ≡ some i
get_elem?-append_some [] ys j i h = absurd (cc)
get_elem?-append_some (x ∷ xs) ys zero i h = h
get_elem?-append_some (x ∷ xs) ys (suc j) i h = get_elem?-append_some xs ys j i h

pub Holds-left :
    (code : Program) (pc : ℕ) (xs ys : Program) → Holds code pc (xs ++ ys) → Holds code pc xs
Holds-left code pc xs ys h j i e = h j i (get_elem?-append_some xs ys j i e)

pub Holds-right :
    (code : Program) (pc : ℕ) (xs ys : Program)
    → Holds code pc (xs ++ ys)
    → Holds code (pc + length xs) ys
Holds-right code pc xs ys h j i e =
    ap (get_elem? code) (omega arith) ∙ h (length xs + j) i (get_elem?-append_right xs ys j ∙ e)

-- Where a loop is held, its jumps and the code of its body are.
pub loop-Holds :
    (code : Program) (pc : ℕ) (body : Peephole.Program)
    → Holds code pc (flatten_statement pc (loop body))
    → (get_elem? code pc ≡ some (jump_zero (pc + 1 + width body)))
      × (get_elem? code (pc + 1 + width body) ≡ some (jump_not_zero pc))
      × Holds code (pc + 1) (flatten (pc + 1) body)
unfolding flatten
loop-Holds code pc body h =
    let last = pc + 1 + width body in
    let inner = flatten (pc + 1) body in
    let behind = jump_not_zero pc ∷ [] in
    let held : Holds code (pc + 1) (inner ++ behind) =
      Holds-right code pc (jump_zero last ∷ []) (inner ++ behind) h in
    (
      ap (get_elem? code) (omega arith) ∙ h 0 (jump_zero last) refl,
      ap (get_elem? code) (omega (arith, length-flatten (pc + 1) body))
          ∙ Holds-right code (pc + 1) inner behind held 0 (jump_not_zero pc) refl,
      Holds-left code (pc + 1) inner behind held,
    )

loads_twice :
    (r : Result ℕ) (g : ℕ → State → Result State) (m : Machine)
    → load m.state ≡ r
    → (with_result m.io
        (load m.state)
        λ b. if b == 0 then done m else on_state (λ s. Common.◌>>=◌ (load s) λ v. g v s) m)
      ≡ (with_result m.io (load m.state) λ b. if b == 0 then done m else on_state (g b) m)
loads_twice (ok b) g m e = rw e
loads_twice (err x) g m e = rw e
loads_twice panic g m e = rw e

-- An instruction that is no jump is the one of the tree, and moves on.
pub step-straight :
    (fuel : ℕ) (i : Instruction) (pc : ℕ) (m : Machine) (k : ℕ → Machine → Outcome)
    → IsStraight i
    → step fuel i pc m k ≡ (exec fuel i m >>= k (pc + 1))
unfolding step exec State.store Nested.move_right Nested.move_left
step-straight fuel (left n) pc m k s = refl
step-straight fuel (right n) pc m k s = refl
step-straight fuel (add n) pc m k s = refl
step-straight fuel in_ pc m k s = refl
step-straight fuel out pc m k s = refl
step-straight fuel (jump_zero _) pc m k s = absurd s
step-straight fuel (jump_not_zero _) pc m k s = absurd s
step-straight fuel set_zero pc m k s = refl
step-straight fuel (offset_add_right n) pc m k s =
    ap (λ o. o >>= k (pc + 1)) (loads_twice (load m.state) (Nested.move_right n) m refl)
step-straight fuel (offset_add_left n) pc m k s =
    ap (λ o. o >>= k (pc + 1)) (loads_twice (load m.state) (Nested.move_left n) m refl)
step-straight fuel (find_zero_right n) pc m k s = refl
step-straight fuel (find_zero_left n) pc m k s = refl
