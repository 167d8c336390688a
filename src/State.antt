-- ===== src/State.antt =====
-- src/state.rs: the memory and the data pointer. A `usize` sum wraps at 2 ^ 64, and an index past
-- the end of the memory panics.
pub mod Valid
pub mod Repeat
pub mod Inverse
pub mod Clear
use bf_rs.Prelude.{
  ℕ, ◌+◌, ◌-◌, ◌%◌, ◌^◌, List, [], ◌∷◌, ◌++◌, Option, none, some, length, get_elem?, set, replicate,
  ltb, leb, if◌then◌else◌,
}
use bf_rs.Common.{Result, ok, err, panic, ◌>>=◌, pointer_underflow, pointer_overflow}

abbrev pub usize_mod : ℕ
usize_mod = 2 ^ 64

abbrev pub byte_mod : ℕ
byte_mod = 2 ^ 8

pub record State : Type 0 where
  pub memory : List ℕ
  pub pointer : ℕ

abbrev pub default_capacity : ℕ
default_capacity = 30_000

unfoldable pub with_capacity : ℕ → State
with_capacity memory_size = record { memory = replicate memory_size 0; pointer = 0 }

unfoldable pub new : State
unfolding with_capacity
new = with_capacity default_capacity

unfoldable pub capacity : State → ℕ
capacity s = length s.memory

unfoldable pub pos_offset : ℕ → State → Result ℕ
pos_offset offset s =
    let target = (s.pointer + offset) % usize_mod in
    if ltb target (length s.memory) then ok target else err pointer_overflow

unfoldable pub neg_offset : ℕ → State → Result ℕ
neg_offset offset s =
    if leb offset s.pointer then ok (s.pointer - offset) else err pointer_underflow

unfoldable pub left : ℕ → State → Result State
unfolding neg_offset
left count s = do p ← neg_offset count s; ok (record s { pointer = p })

unfoldable pub right : ℕ → State → Result State
unfolding pos_offset
right count s = do p ← pos_offset count s; ok (record s { pointer = p })

-- `memory[address]` as a value and as a place to write to.
abbrev pub or_panic : Option ℕ → Result ℕ
or_panic none = panic
or_panic (some b) = ok b

unfoldable pub index : List ℕ → ℕ → Result ℕ
index memory address = or_panic (get_elem? memory address)

unfoldable pub modify : (ℕ → ℕ) → ℕ → State → Result State
unfolding index
modify f address s = do
  b ← index s.memory address
  ok (record s { memory = set s.memory address (f b) })

-- `+=` and `-=` of `Wrapping<u8>`.
abbrev pub wrapping_add : ℕ → ℕ → ℕ
wrapping_add count b = (b + count) % byte_mod

abbrev pub wrapping_sub : ℕ → ℕ → ℕ
wrapping_sub count b = (b + byte_mod - count) % byte_mod

unfoldable pub up : ℕ → State → Result State
unfolding modify
up count s = modify (wrapping_add count) s.pointer s

unfoldable pub down : ℕ → State → Result State
unfolding modify
down count s = modify (wrapping_sub count) s.pointer s

unfoldable pub load : State → Result ℕ
unfolding index
load s = index s.memory s.pointer

unfoldable pub store : ℕ → State → Result State
unfolding modify
store value s = modify (λ _. value) s.pointer s

unfoldable pub up_pos_offset : ℕ → ℕ → State → Result State
unfolding pos_offset modify
up_pos_offset offset value s = do
  address ← pos_offset offset s
  modify (wrapping_add value) address s

unfoldable pub up_neg_offset : ℕ → ℕ → State → Result State
unfolding neg_offset modify
up_neg_offset offset value s = do
  address ← neg_offset offset s
  modify (wrapping_add value) address s

-- `read_exact` into a buffer of one byte that holds 0: at the end of the input the 0 stays.
unfoldable pub read_exact : List ℕ → ℕ × List ℕ
read_exact [] = (0, [])
read_exact (b ∷ rest) = (b, rest)

unfoldable pub read : List ℕ → State → Result (State × List ℕ)
unfolding read_exact store
read input s = do let (byte, rest) = read_exact input; s' ← store byte s; ok (s', rest)

-- `write_all` of one byte appends it to what was written.
unfoldable pub write : List ℕ → State → Result (List ℕ)
unfolding load
write output s = do byte ← load s; ok (output ++ (byte ∷ []))
