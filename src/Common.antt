-- ===== src/Common.antt =====
-- src/common.rs: errors, the result type, commands and instructions.
pub mod Laws
use bf_rs.Prelude.{ℕ}

-- The source's `Error`, the syntax errors and the run-time errors.
pub data Error : Type 0 where
  unmatched_begin unmatched_end pointer_underflow pointer_overflow : Error

-- `BfResult`, and beside it a panic.
pub data Result {ℓ} (A : Type ℓ) : Type ℓ where
  ok : A → Result A
  err : Error → Result A
  panic : Result A

infixl 5 ◌>>=◌
abbrev pub ◌>>=◌ {ℓ κ} : {A : Type ℓ} {B : Type κ} → Result A → (A → Result B) → Result B
ok a >>= f = f a
err e >>= f = err e
panic >>= f = panic

-- The eight commands.
pub data Command : Type 0 where
  right left up down in_ out begin end : Command

pub data Instruction : Type 0 where
  left right : ℕ → Instruction
  add : ℕ → Instruction
  in_ out : Instruction
  jump_zero jump_not_zero : ℕ → Instruction
  set_zero : Instruction
  offset_add_right offset_add_left : ℕ → Instruction
  find_zero_right find_zero_left : ℕ → Instruction
