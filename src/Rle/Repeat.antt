-- ===== src/Rle/Repeat.antt =====
-- src/rle/interpreter.rs: runs and single commands.
use bf_rs.Prelude.{ℕ, zero, suc, ◌%◌, ◌≤◌, ◌≡◌, refl, sym, ap, ◌∙◌}
use mathlib.Core.Path.{fun_ext}
use bf_rs.Common
use bf_rs.Common.{Command, right, left, up, down, in_, out, begin, end, Result, ok, err, panic}
use bf_rs.State
use bf_rs.State.{State, byte_mod}
use bf_rs.State.Valid.{isize_max}
use bf_rs.State.Repeat.{left-suc, right-suc, up-suc, down-suc}
use bf_rs.Machine.{Machine, Outcome, Io, done, ◌>>=◌, with_result, on_state, read_byte, write_byte}
use bf_rs.Machine.Laws.{bind-done, bind_assoc, IsValidMachine}
use bf_rs.Ast.Interpreter as Plain
use bf_rs.Rle.Interpreter.{repeat, interpret_command}

repeat-suc :
    (n : ℕ) (body : Machine → Outcome) (m : Machine)
    → repeat (suc n) body m ≡ (repeat n body m >>= body)
unfolding repeat
repeat-suc zero body m = bind-done (body m)
repeat-suc (suc n) body m =
    ap (λ (k : Machine → Outcome). body m >>= k) (fun_ext (repeat-suc n body))
    ∙ sym (bind_assoc (body m) (repeat n body) body)

-- A chain of two operations of the state.
with_result-bind :
    (io : Io) (r : Result State) (h : State → Result State)
    → with_result io (Common.◌>>=◌ r h) (λ s. done (record { state = s; io = io }))
      ≡ (with_result io r (λ s. done (record { state = s; io = io })) >>= on_state h)
with_result-bind io (ok s) h = refl
with_result-bind io (err e) h = refl
with_result-bind io panic h = refl

on_state_suc :
    (f g h : State → Result State) (m : Machine)
    → f m.state ≡ Common.◌>>=◌ (g m.state) h
    → on_state f m ≡ (on_state g m >>= on_state h)
on_state_suc f g h m e =
    ap (λ r. with_result m.io r (λ s. done (record { state = s; io = m.io }))) e
    ∙ with_result-bind m.io (g m.state) h

-- One repetition more is one execution of the command more.
pub interpret_command-suc :
    (c : Command) (n : ℕ) (m : Machine)
    → IsValidMachine m
    → suc n ≤ isize_max
    → interpret_command c (suc n) m ≡ (interpret_command c n m >>= Plain.interpret_command c)
unfolding interpret_command Plain.interpret_command
interpret_command-suc left n m v h =
    on_state_suc (State.left (suc n)) (State.left n) (State.left 1) m (left-suc m.state v.valid n)
interpret_command-suc right n m v h =
    on_state_suc (State.right (suc n)) (State.right n) (State.right 1) m
      (right-suc m.state v.valid n h)
interpret_command-suc up n m v h =
    on_state_suc (State.up (suc n % byte_mod)) (State.up (n % byte_mod)) (State.up 1) m
      (up-suc m.state v.valid n)
interpret_command-suc down n m v h =
    on_state_suc (State.down (suc n % byte_mod)) (State.down (n % byte_mod)) (State.down 1) m
      (down-suc m.state v.valid n)
interpret_command-suc in_ n m v h = repeat-suc n read_byte m
interpret_command-suc out n m v h = repeat-suc n write_byte m
interpret_command-suc begin n m v h = refl
interpret_command-suc end n m v h = refl

pub interpret_command_one :
    (c : Command) (m : Machine) → interpret_command c 1 m ≡ Plain.interpret_command c m
unfolding interpret_command Plain.interpret_command
interpret_command_one in_ m = bind-done (read_byte m)
interpret_command_one out m = bind-done (write_byte m)
interpret_command_one _ m = refl
