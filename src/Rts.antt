-- ===== src/Rts.antt =====
-- src/rts.rs, and what the native back ends do with its codes: the code that is generated returns a
-- number, and `interpret_state` makes a result of it.
pub mod Errors
pub mod Correct
use bf_rs.Prelude.{ℕ, zero, suc}
use bf_rs.Common
use bf_rs.Common.{Error, Result, ok, err, panic}
use bf_rs.Traits.{Ended, ended}
use bf_rs.Machine.{Io, Machine, Outcome, done, failed, panicked, out_of_fuel}

abbrev pub okay : ℕ
okay = 0

abbrev pub underflow : ℕ
underflow = 1

abbrev pub overflow : ℕ
overflow = 2

-- A call of the generated function: it returns a number, or crashes, or has not returned yet.
pub data Returned : Type 0 where
  returned : ℕ → Io → Returned
  crashed : Io → Returned
  running : Returned

-- The labels `underflow` and `overflow` of the epilogue; no code jumps elsewhere.
abbrev pub leave : Error → Io → Returned
leave Common.pointer_underflow io = returned underflow io
leave Common.pointer_overflow io = returned overflow io
leave Common.unmatched_begin io = crashed io
leave Common.unmatched_end io = crashed io

unfoldable pub epilogue : Outcome → Returned
epilogue (done m) = returned okay m.io
epilogue (failed e io) = leave e io
epilogue (panicked io) = crashed io
epilogue out_of_fuel = running

-- `match result`.
abbrev pub result_of : ℕ → Result (Unit {0})
result_of zero = ok tt
result_of (suc zero) = err Common.pointer_underflow
result_of (suc (suc zero)) = err Common.pointer_overflow
result_of (suc (suc (suc _))) = panic

unfoldable pub receive : Returned → Ended
receive (returned code io) = ended (result_of code) io
receive (crashed io) = ended panic io
receive running = Ended.running

-- The prologue: the pointer starts at the first cell, wherever that of the state stood.
unfoldable pub prologue : Machine → Machine
prologue m = record { state = record m.state { pointer = 0 }; io = m.io }

-- `interpret_state` of a program whose code does what `code` does.
unfoldable pub interpret_state : (Machine → Outcome) → Machine → Ended
unfolding prologue epilogue receive
interpret_state code m = receive (epilogue (code (prologue m)))
