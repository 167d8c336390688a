-- ===== src/Examples/Meaning.antt =====
-- The meaning of the program of `Programs`, and its runs.
use bf_rs.Prelude.{◌≡◌, refl, [], ◌∷◌, some, true, arith}
use bf_rs.Ast.Interpreter as Plain
use bf_rs.Bfi.{jit, run_pass}
use bf_rs.Semantics.{Config, halts, update, Runs, finish, next, command, enter, leave, again}
use bf_rs.Semantics.View.{view, see}
use bf_rs.Semantics.Sound.{Meets, interpret-Runs}
use bf_rs.Semantics.Complete.{interpret_of_Runs}
use bf_rs.Semantics.Passes.{initial, ending_of, run_pass-Runs}
use bf_rs.Examples.Native.{options}
use bf_rs.Examples.Programs.{windows, text, tree, machine, parsed, machine-IsValidMachine}

interpret-Runs_example : Meets (Runs tree (view machine)) (Plain.interpret 256 tree machine)
interpret-Runs_example = interpret-Runs 256 text tree machine parsed machine-IsValidMachine

-- The tape at the end, from a start.
abbrev last : Config → Config
last c = record c { head = 1; cell = update (update (update c.cell 0 1) 1 1) 0 0; output = 1 ∷ [] }

abbrev derivation : Runs tree (view machine) (halts (last (view machine)))
derivation = next (command refl) (
    next
      (enter (
        again (λ e. omega (arith, e))
          (next (command refl)
            (next (command refl) (next (command refl) (next (command refl) finish))))
          (leave refl)))
      (next (command refl) (next (command refl) finish)))

interpret_of_Runs_example :
    see (Plain.interpret 2 tree machine) ≡ some (halts (last (view machine)))
interpret_of_Runs_example =
    interpret_of_Runs text tree machine (halts (last (view machine))) derivation 2 parsed
      machine-IsValidMachine (omega arith)

abbrev derivation_at_start :
    Runs tree (initial (some 4) (7 ∷ [])) (halts (last (initial (some 4) (7 ∷ []))))
derivation_at_start = next (command refl) (
    next
      (enter (
        again (λ e. omega (arith, e))
          (next (command refl)
            (next (command refl) (next (command refl) (next (command refl) finish))))
          (leave refl)))
      (next (command refl) (next (command refl) finish)))

run_pass-Runs_example :
    run_pass 256 0 10 windows true jit tree options (7 ∷ [])
    ≡ ending_of (halts (last (initial (some 4) (7 ∷ []))))
run_pass-Runs_example =
    run_pass-Runs 256 0 10 windows true text tree options (7 ∷ []) jit
      (halts (last (initial (some 4) (7 ∷ [])))) derivation_at_start (omega arith) (omega arith)
      parsed (omega arith) (omega arith) (omega arith, omega arith) (omega arith, tt) refl refl
