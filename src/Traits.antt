-- ===== src/Traits.antt =====
-- src/traits.rs: running a program form on a memory of a given size, and on input from memory.
pub mod Start
use bf_rs.Prelude.{ℕ, List, [], Option, none, some}
use bf_rs.Common.{Result, ok, err, panic}
use bf_rs.State
use bf_rs.State.{State, with_capacity}
use bf_rs.Machine.{Io, Machine, Outcome, done, failed, panicked, out_of_fuel}

-- What the caller of `interpret_state` has: the result, and the input and output. The state is gone.
pub data Ended : Type 0 where
  ended : Result (Unit {0}) → Io → Ended
  running : Ended

-- A run that wants for fuel has no result yet.
unfoldable pub seen : Outcome → Ended
seen (done m) = ended (ok tt) m.io
seen (failed e io) = ended (err e) io
seen (panicked io) = ended panic io
seen out_of_fuel = running

-- `size.map(State::with_capacity).unwrap_or_default()`.
unfoldable pub initial_state : Option ℕ → State
unfolding with_capacity State.new
initial_state (some size) = with_capacity size
initial_state none = State.new

unfoldable pub start : Option ℕ → List ℕ → Machine
unfolding initial_state
start size input = record { state = initial_state size; io = record { input = input; output = [] } }

-- The default method `interpret`, for a program form with the given `interpret_state`.
unfoldable pub interpret : (Machine → Ended) → Option ℕ → List ℕ → Ended
unfolding start
interpret interpret_state size input = interpret_state (start size input)

unfoldable pub output_of : Ended → Option (Result (List ℕ))
output_of (ended (ok u) io) = some (ok io.output)
output_of (ended (err e) io) = some (err e)
output_of (ended panic io) = some panic
output_of running = none

unfoldable pub interpret_memory : (Machine → Ended) → Option ℕ → List ℕ → Option (Result (List ℕ))
unfolding interpret output_of
interpret_memory interpret_state size input = output_of (interpret interpret_state size input)
