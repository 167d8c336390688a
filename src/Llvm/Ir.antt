-- ===== src/Llvm/Ir.antt =====
-- The part of LLVM's language that src/llvm emits, and how it runs. A function is its basic blocks by
-- number, and a register is assigned where it is defined.
use bf_rs.Prelude.{
  ℕ, zero, suc, ◌+◌, ◌-◌, ◌%◌, List, [], ◌∷◌, ◌++◌, Bool, true, false, not, ltb, leb, ◌==◌,
  if◌then◌else◌, Option, none, some,
}
use mathlib.Core.Option
use bf_rs.Common.{Result, ok, err, panic}
use bf_rs.State.{State, usize_mod, byte_mod, index, modify, read_exact}
use bf_rs.Machine.{Machine}
use bf_rs.Rts.{Returned, returned, crashed, running}

-- Operands. `slot` and `array` are the two objects that the function allocates, which the source has
-- only from `alloca` and `array_alloca`; the parameters are
-- the state of the run-time system, and its functions to read and to write.
pub data Value : Type 0 where
  word byte : ℕ → Value
  reg : ℕ → Value
  param : ℕ → Value
  slot array memset : Value

pub data Instr : Type 0 where
  alloca : Instr
  array_alloca : Value → Instr
  load : ℕ → Value → Instr
  store : Value → Value → Instr
  add sub : ℕ → Value → Value → Instr
  cmp_ne cmp_ult cmp_ule : ℕ → Value → Value → Instr
  gep : ℕ → Value → Value → Instr
  call : ℕ → Value → List Value → Instr
  br : ℕ → Instr
  cond_br : Value → ℕ → ℕ → Instr
  ret : Value → Instr

abbrev pub Blocks : Type 0
Blocks = ℕ → List Instr

-- What a register holds: numbers of 64, 8 and 1 bits, addresses, and functions.
pub data Held : Type 0 where
  word byte : ℕ → Held
  bit : Bool → Held
  slot : Held
  cell : ℕ → Held
  code : ℕ → Held
  memset nothing : Held

abbrev pub Regs : Type 0
Regs = ℕ → Held

abbrev pub put {ℓ} : {A : Type ℓ} → (ℕ → A) → ℕ → A → ℕ → A
put f i v j = if j == i then v else f j

abbrev pub eval : Regs → Value → Held
eval regs (Value.word n) = word n
eval regs (Value.byte n) = byte n
eval regs (Value.reg r) = regs r
eval regs (Value.param n) = code n
eval regs Value.slot = slot
eval regs Value.array = cell 0
eval regs Value.memset = memset

-- What comes after an instruction.
pub data Next : Type 0 where
  proceed : Regs → Machine → Next
  goto : ℕ → Next
  exit : ℕ → Next
  crash : Next

abbrev pub assign : Regs → ℕ → Held → Machine → Next
assign regs dst v m = proceed (put regs dst v) m

abbrev pub with_byte : Regs → ℕ → Machine → Result ℕ → Next
with_byte regs dst m (ok b) = assign regs dst (byte b) m
with_byte regs dst m (err e) = crash
with_byte regs dst m panic = crash

abbrev pub with_state : Regs → Machine → Result State → Next
with_state regs m (ok s) = proceed regs (record { state = s; io = m.io })
with_state regs m (err e) = crash
with_state regs m panic = crash

abbrev pub load_from : Regs → ℕ → Machine → Held → Next
load_from regs dst m slot = assign regs dst (word m.state.pointer) m
load_from regs dst m (cell i) = with_byte regs dst m (index m.state.memory i)
load_from regs dst m _ = crash

abbrev pub store_to : Regs → Machine → Held → Held → Next
store_to regs m (word n) slot =
    proceed regs (record { state = record m.state { pointer = n }; io = m.io })
store_to regs m (byte b) (cell i) = with_state regs m (modify (λ _. b) i m.state)
store_to regs m _ _ = crash

abbrev pub sum : Held → Held → Held
sum (word a) (word b) = word ((a + b) % usize_mod)
sum (byte a) (byte b) = byte ((a + b) % byte_mod)
sum _ _ = nothing

abbrev pub difference : Held → Held → Held
difference (word a) (word b) = word ((a + (usize_mod - b % usize_mod)) % usize_mod)
difference _ _ = nothing

abbrev pub compare_with : (ℕ → ℕ → Bool) → Held → Held → Held
compare_with test (word a) (word b) = bit (test a b)
compare_with test (byte a) (byte b) = bit (test a b)
compare_with test _ _ = nothing

abbrev pub address : Held → Held → Held
address (cell i) (word n) = cell ((i + n) % usize_mod)
address _ _ = nothing

abbrev pub branch_on : Held → ℕ → ℕ → Next
branch_on (bit true) l k = goto l
branch_on (bit false) l k = goto k
branch_on _ l k = crash

abbrev pub exit_with : Held → Next
exit_with (word n) = exit n
exit_with _ = crash

-- `RtsState::read_c`, `RtsState::write_c`, and `llvm.memset`.
abbrev pub read_c : Regs → ℕ → Machine → ℕ × List ℕ → Next
read_c regs dst m (b, rest) =
    assign regs dst (byte b)
      (record { state = m.state; io = record { input = rest; output = m.io.output } })

abbrev pub write_c : Regs → Machine → Held → Next
write_c regs m (byte b) = proceed regs (record {
  state = m.state;
  io = record { input = m.io.input; output = m.io.output ++ (b ∷ []) };
})
write_c regs m _ = crash

-- The first `n` cells are set one after the other, of which there may be less.
abbrev pub set_first : ℕ → ℕ → List ℕ → Option (List ℕ)
set_first zero b memory = some memory
set_first (suc n) b [] = none
set_first (suc n) b (_ ∷ memory) = Option.map (λ rest. b ∷ rest) (set_first n b memory)

abbrev pub with_memory : Regs → Machine → Option (List ℕ) → Next
with_memory regs m (some memory) =
    proceed regs (record { state = record m.state { memory = memory }; io = m.io })
with_memory regs m none = crash

abbrev pub fill : Regs → Machine → Held → Held → Held → Next
fill regs m (cell zero) (byte b) (word n) = with_memory regs m (set_first n b m.state.memory)
fill regs m _ _ _ = crash

-- Memory of a size that was just allocated, where `undefined` says what a cell holds.
abbrev pub allocated : (ℕ → ℕ) → ℕ → List ℕ
allocated undefined zero = []
allocated undefined (suc n) = undefined n % byte_mod ∷ allocated undefined n

abbrev pub call_of : Regs → ℕ → Machine → Held → List Value → Next
call_of regs dst m (code (suc zero)) (rts ∷ []) = read_c regs dst m (read_exact m.io.input)
call_of regs dst m (code (suc (suc zero))) (rts ∷ v ∷ []) = write_c regs m (eval regs v)
call_of regs dst m memset (to ∷ v ∷ n ∷ rest) =
    fill regs m (eval regs to) (eval regs v) (eval regs n)
call_of regs dst m _ _ = crash

-- `undefined` is what the cells hold that were just allocated.
module _ (undefined : ℕ → ℕ) where
  abbrev allocate : Regs → Machine → Held → Next
  allocate regs m (word n) =
      proceed regs (record { state = record m.state { memory = allocated undefined n }; io = m.io })
  allocate regs m _ = crash

  unfoldable pub step : Regs → Machine → Instr → Next
  unfolding index modify read_exact
  step regs m alloca = proceed regs m
  step regs m (array_alloca n) = allocate regs m (eval regs n)
  step regs m (load dst a) = load_from regs dst m (eval regs a)
  step regs m (store v a) = store_to regs m (eval regs v) (eval regs a)
  step regs m (add dst v w) = assign regs dst (sum (eval regs v) (eval regs w)) m
  step regs m (sub dst v w) = assign regs dst (difference (eval regs v) (eval regs w)) m
  step regs m (cmp_ne dst v w) =
      assign regs dst (compare_with (λ a b. not (a == b)) (eval regs v) (eval regs w)) m
  step regs m (cmp_ult dst v w) = assign regs dst (compare_with ltb (eval regs v) (eval regs w)) m
  step regs m (cmp_ule dst v w) = assign regs dst (compare_with leb (eval regs v) (eval regs w)) m
  step regs m (gep dst a v) = assign regs dst (address (eval regs a) (eval regs v)) m
  step regs m (call dst f args) = call_of regs dst m (eval regs f) args
  step regs m (br l) = goto l
  step regs m (cond_br v l k) = branch_on (eval regs v) l k
  step regs m (ret v) = exit_with (eval regs v)

  -- The rest of a block, for so many instructions. A block does not end without a jump.
  unfoldable pub run : ℕ → Blocks → List Instr → Regs → Machine → Returned
  unfolding step
  run zero blocks rest regs m = running
  run (suc n) blocks [] regs m = crashed m.io
  run (suc n) blocks (i ∷ rest) regs m = elim (step regs m i) [
    | proceed regs' m' ↦ run n blocks rest regs' m'
    | goto l ↦ run n blocks (blocks l) regs m
    | exit c ↦ returned c m.io
    | crash ↦ crashed m.io
  ]
