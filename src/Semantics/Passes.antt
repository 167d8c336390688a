-- ===== src/Semantics/Passes.antt =====
-- src/bin/bfi.rs: the passes, and what the program means.
use bf_rs.Cranelift.{Host}
use bf_rs.Prelude.{
  ℕ, ◌≤◌, ◌<◌, ◌≡◌, ap, ◌∙◌, List, [], length, length-replicate, replicate, All, Bool, false,
  Option, none, some,
}
use mathlib.Core.Path.{fun_ext}
use mathlib.Core.Option.{some-injective}
use bf_rs.State
use bf_rs.State.{default_capacity}
use bf_rs.State.Valid.{IsByte, isize_max}
use bf_rs.Machine.{Outcome, done, failed, panicked, out_of_fuel}
use bf_rs.Ast
use bf_rs.Ast.Interpreter as Plain
use bf_rs.Ast.Parser
use bf_rs.Ast.Parser.{parse_program}
use bf_rs.Ast.Parser.Correct.{parse_program-print}
use bf_rs.Traits
use bf_rs.Traits.{seen, start}
use bf_rs.Traits.Start.{IsSize, start-IsValidMachine}
use bf_rs.Bfi
use bf_rs.Bfi.{Options, Pass, ast, Ending, success, error_exit, ending, run_pass}
use bf_rs.Bfi.Correct.{IsNested, run_pass-ast}
use bf_rs.Semantics.{Config, Final, halts, aborts, Runs}
use bf_rs.Semantics.View.{get_or, get_or-replicate, view, see}
use bf_rs.Semantics.Complete.{cost, see_of_Runs}

abbrev capacity_of : Option ℕ → ℕ
capacity_of (some n) = n
capacity_of none = default_capacity

-- An empty tape.
abbrev pub initial : Option ℕ → List ℕ → Config
initial size input = record {
  size = capacity_of size;
  head = 0;
  cell = λ i. 0;
  input = input;
  output = [];
}

view-replicate :
    (n : ℕ) (input : List ℕ)
    → view (record {
      state = record { memory = replicate n 0; pointer = 0 };
      io = record { input = input; output = [] };
    })
      ≡ record { size = n; head = 0; cell = λ i. 0; input = input; output = [] }
view-replicate n input =
    ap
      (λ s. record {
        size = s;
        head = 0;
        cell = get_or (replicate n 0);
        input = input;
        output = [];
      })
      (length-replicate n 0)
    ∙ ap (λ f. record { size = n; head = 0; cell = f; input = input; output = [] })
        (fun_ext (get_or-replicate n))

pub view-start : (size : Option ℕ) (input : List ℕ) → view (start size input) ≡ initial size input
unfolding start State.with_capacity State.new
view-start (some n) input = view-replicate n input
view-start none input = view-replicate default_capacity input

-- The end of the process for an end of the program.
abbrev pub ending_of : Final → Ending
ending_of (halts c) = success (record { input = c.input; output = c.output })
ending_of (aborts e i o) = error_exit 3 (record { input = i; output = o })

ending-seen : (o : Outcome) (r : Final) → see o ≡ some r → ending (seen o) ≡ ending_of r
unfolding ending seen
ending-seen (done m) r h = ap ending_of (some-injective _ _ h)
ending-seen (failed e io) r h = ap ending_of (some-injective _ _ h)
ending-seen (panicked io) r h = absurd (cc)
ending-seen out_of_fuel r h = absurd (cc)

-- Let a program, parsed from a text no longer than the largest slice and the largest `Count`,
-- have a derivation from the empty tape of a size that can be allocated and is not 0, with an input
-- of bytes. Unless `--unchecked` is given, with at least 256 rounds for each loop, and more than
-- the derivation has, the tree and the passes for runs, the optimizer, LLVM and, where it is built
-- in, native code end the process as the derivation ends: code 0 or 3, output and rest of the input.
pub run_pass-Runs :
    (fuel rounds count_max : ℕ) (host : Host) (has_jit : Bool) (text : List ℕ) (p : Ast.Program)
    (o : Options) (input : List ℕ) (pass : Pass) (r : Final)
    (d : Runs p (initial o.memory_size input) r)
    → 256 ≤ fuel
    → cost d < fuel
    → parse_program text ≡ Parser.ok p
    → length text ≤ isize_max
    → length text ≤ count_max
    → IsSize o.memory_size
    → All IsByte input
    → o.unchecked ≡ false
    → IsNested has_jit pass
    → run_pass fuel rounds count_max host has_jit pass p o input ≡ ending_of r
unfolding run_pass Bfi.interpret Traits.interpret Plain.interpret
run_pass-Runs fuel rounds count_max host has_jit text p o input pass r d enough l e small fits size
      bytes u n =
    run_pass-ast fuel count_max host has_jit text p o input enough e small fits size bytes rounds
      pass u n
    ∙ ending-seen (Plain.interpret fuel p (start o.memory_size input)) r (
        see_of_Runs d fuel (start o.memory_size input) l (parse_program-print text p e).0
          (view-start o.memory_size input) (start-IsValidMachine o.memory_size input size bytes))
