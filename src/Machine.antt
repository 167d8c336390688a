-- ===== src/Machine.antt =====
-- The state of a run: the machine of src/state.rs, the input that is left and the output. The
-- interpreters of every level return an `Outcome`. `interpret_state` owns its `State` and drops it,
-- so that a failed run leaves its input and output alone; what was written stays written.
pub mod Laws
pub mod Inside
use bf_rs.Prelude.{ℕ, zero, suc, List, true, false, ◌==◌}
use bf_rs.Common.{Error, Result, ok, err, panic}
use bf_rs.State.{State, load, read, write}

pub record Io : Type 0 where
  pub input : List ℕ
  pub output : List ℕ

pub record Machine : Type 0 where
  pub state : State
  pub io : Io

pub data Outcome : Type 0 where
  done : Machine → Outcome
  failed : Error → Io → Outcome
  panicked : Io → Outcome
  out_of_fuel : Outcome

-- The `?` after a call that returns `BfResult<()>`.
infixl 5 ◌>>=◌
abbrev pub ◌>>=◌ : Outcome → (Machine → Outcome) → Outcome
done m >>= f = f m
failed e io >>= f = failed e io
panicked io >>= f = panicked io
out_of_fuel >>= f = out_of_fuel

-- Go on with the result of an operation of the state.
abbrev pub with_result {ℓ} : {A : Type ℓ} → Io → Result A → (A → Outcome) → Outcome
with_result io (ok a) f = f a
with_result io (err e) f = failed e io
with_result io panic f = panicked io

abbrev pub on_state : (State → Result State) → Machine → Outcome
on_state op m = with_result m.io (op m.state) λ s. done (record { state = s; io = m.io })

unfoldable pub read_byte : Machine → Outcome
unfolding read
read_byte m =
    with_result m.io (read m.io.input m.state)
      λ (s, rest). done (record { state = s; io = record { input = rest; output = m.io.output } })

unfoldable pub write_byte : Machine → Outcome
unfolding write
write_byte m =
    with_result m.io (write m.io.output m.state) λ output.
      done (record { state = m.state; io = record { input = m.io.input; output = output } })

-- `if state.load() != 0 { nonzero } else { zero }`, and what `nonzero` is given is the byte.
abbrev pub branch : Outcome → Outcome → ℕ → Outcome
branch at_zero at_nonzero zero = at_zero
branch at_zero at_nonzero (suc _) = at_nonzero

-- `while state.load() != 0 { body }`, for as many rounds as the fuel allows.
unfoldable pub while_nonzero : ℕ → (Machine → Outcome) → Machine → Outcome
while_nonzero zero body m = out_of_fuel
while_nonzero (suc fuel) body m =
    let again = body m >>= while_nonzero fuel body in
    with_result m.io (load m.state) (branch (done m) again)
