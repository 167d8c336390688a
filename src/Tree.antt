-- ===== src/Tree.antt =====
-- The rose trees of src/ast/mod.rs, src/rle/mod.rs and src/peephole/mod.rs: a statement is an
-- instruction of the level, or a loop over a sequence of statements. The three interpreters of the
-- trees have one text but for the `match` on an instruction, and are written once over it.
pub mod Laws
pub mod Fuel
use bf_rs.Prelude.{ℕ, ◌+◌}
use bf_rs.Machine.{Machine, Outcome, done, ◌>>=◌, while_nonzero}

infixr 60 ◌⨾◌
mutual
  pub data Statement (I : Type 0) : Type 0 where
    instr : I → Statement I
    loop : Program I → Statement I

  pub data Program (I : Type 0) : Type 0 where
    nil : Program I
    ◌⨾◌ : Statement I → Program I → Program I

module _ {I : Type 0} where
  infixr 60 ◌⧺◌
  unfoldable pub ◌⧺◌ : Program I → Program I → Program I
  nil ⧺ q = q
  (s ⨾ p) ⧺ q = s ⨾ (p ⧺ q)

  -- `Vec::push`.
  unfoldable pub push : Program I → Statement I → Program I
  unfolding ◌⧺◌
  push p s = p ⧺ (s ⨾ nil)

  abbrev mutual
    pub AllInstr : (I → Type 0) → Program I → Type 0
    AllInstr P nil = Unit
    AllInstr P (s ⨾ p) = AllStatement P s × AllInstr P p

    pub AllStatement : (I → Type 0) → Statement I → Type 0
    AllStatement P (instr i) = P i
    AllStatement P (loop body) = AllInstr P body

  -- The number of statements, those of the loops' bodies included.
  abbrev mutual
    pub size : Program I → ℕ
    size nil = 0
    size (s ⨾ p) = size_statement s + size p

    pub size_statement : Statement I → ℕ
    size_statement (instr i) = 1
    size_statement (loop body) = 1 + size body

  -- `for instruction in instructions { interpret_instruction(instruction, …)?; }`, and a loop with
  -- `fuel` rounds.
  unfoldable mutual
    pub interpret : (ℕ → I → Machine → Outcome) → ℕ → Program I → Machine → Outcome
    interpret exec fuel nil m = done m
    interpret exec fuel (s ⨾ p) m = interpret_statement exec fuel s m >>= interpret exec fuel p

    pub interpret_statement : (ℕ → I → Machine → Outcome) → ℕ → Statement I → Machine → Outcome
    interpret_statement exec fuel (instr i) m = exec fuel i m
    interpret_statement exec fuel (loop body) m = while_nonzero fuel (interpret exec fuel body) m
