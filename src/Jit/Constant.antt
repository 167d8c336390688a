-- ===== src/Jit/Constant.antt =====
-- src/jit/compiler.rs: `load_constant`, which puts a count into a register of 64 bits.
use bf_rs.Prelude.{ℕ, ◌+◌, ◌-◌, ◌%◌, ◌^◌, ◌<◌, ◌≡◌, ◌↔◌, ltb, ◌==◌, if◌then◌else◌, arith}

-- The types that `Count` can be, of src/common.rs.
pub data CountType : Type 0 where
  u16 u32 usize : CountType

abbrev pub values : CountType → ℕ
values u16 = 2 ^ 16
values u32 = 2 ^ 32
values usize = 2 ^ 64

-- `as i32`, and the sign extended to 64 bits.
abbrev as_i32 : ℕ → ℕ
as_i32 count = let low = count % 2 ^ 32 in if ltb low (2 ^ 31) then low else low + (2 ^ 64 - 2 ^ 32)

-- `mov rax, DWORD` if the count survives a conversion to `i32` and back, else `mov rax, QWORD`.
unfoldable pub load_constant : CountType → ℕ → ℕ
load_constant t count = if as_i32 count % values t == count then as_i32 count else count % 2 ^ 64

-- Below this the register holds the count.
abbrev pub limit : CountType → ℕ
limit u16 = 2 ^ 16
limit u32 = 2 ^ 31
limit usize = 2 ^ 64

pub load_constant-count :
    (t : CountType) (count : ℕ)
    → count < values t
    → (load_constant t count ≡ count) ↔ (count < limit t)
unfolding load_constant
load_constant-count u16 count h = (λ e. h, λ l. ground arith)
load_constant-count u32 count h = (λ e. ground arith, λ l. ground arith)
load_constant-count usize count h = (λ e. h, λ l. ground arith)
