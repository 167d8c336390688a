-- ===== src/Bfi.antt =====
-- src/bin/bfi.rs: the executable. What clap makes of the command line is the record `NewOptions`;
-- the file system is a parameter. `host` is what Cranelift code depends on.
pub mod Correct
use bf_rs.Prelude.{
  ℕ, ◌==◌, List, [], ◌∷◌, ◌++◌, Bool, true, false, Option, none, some, if◌then◌else◌, not,
}
use bf_rs.Common.{Result, ok, err, panic}
use bf_rs.Machine.{Io, Machine}
use bf_rs.Traits.{Ended, seen}
use bf_rs.Rts.{interpret_state}
use bf_rs.Cranelift
use bf_rs.Ast
use bf_rs.Ast.Interpreter as Plain
use bf_rs.Ast.Parser.{Parsed, parse_program}
use bf_rs.Ast.Parser
use bf_rs.Rle.Interpreter as Runs
use bf_rs.Peephole.Interpreter as Nested
use bf_rs.Bytecode.Interpreter as Flat
use bf_rs.Jit.Code as Native
use bf_rs.Pipeline.{
  rle_compile, peephole_compile, bytecode_compile, jit_compile, llvm_run, cranelift_compile,
}
use bf_rs.Traits

pub record NewOptions : Type 0 where
  pub files : Option (List (List ℕ))
  pub expressions : Option (List (List ℕ))
  pub memory_size : ℕ
  pub unchecked : Bool
  pub ast : Bool
  pub rle : Bool
  pub bytecode : Bool
  pub peephole : Bool
  pub jit : Bool
  pub llvm : Bool
  pub cranelift : Bool

pub data Pass : Type 0 where
  ast rle bytecode peephole jit llvm cranelift : Pass

pub record Options : Type 0 where
  pub program_text : List ℕ
  pub memory_size : Option ℕ
  pub compiler_pass : Pass
  pub unchecked : Bool

-- `Pass::new`. Without a feature its flag is never given.
unfoldable pub pass_of : NewOptions → Pass
pass_of o =
    if o.ast
    then ast
    else if o.rle
    then rle
    else if o.bytecode
    then bytecode
    else if o.peephole
    then peephole
    else if o.jit
    then jit
    else if o.llvm
    then llvm
    else if o.cranelift
    then cranelift
    else peephole

unfoldable pub options_of : NewOptions → Options
unfolding pass_of
options_of o = record {
  program_text = [];
  memory_size = some o.memory_size;
  compiler_pass = pass_of o;
  unchecked = o.unchecked;
}

-- How the process ends: normally, by `error_exit` with a code, or by a panic.
pub data Ending : Type 0 where
  success : Io → Ending
  error_exit : ℕ → Io → Ending
  panicked : Io → Ending
  out_of_fuel : Ending

-- `unwrap_or_else(|e| error_exit(3, …))` on the result of a run.
unfoldable pub ending : Ended → Ending
ending (Ended.ended (ok u) io) = success io
ending (Ended.ended (err e) io) = error_exit 3 io
ending (Ended.ended panic io) = panicked io
ending Ended.running = out_of_fuel

-- A compiler that panics ends the process before anything is read or written.
unfoldable pub compiled {ℓ} : {A : Type ℓ} → Io → Result A → (A → Ending) → Ending
compiled io (ok a) f = f a
compiled io (err e) f = panicked io
compiled io panic f = panicked io

-- `File::open` and `read_to_end` for one file after the other.
unfoldable pub read_files : (List ℕ → Option (List ℕ)) → List (List ℕ) → List ℕ → Option (List ℕ)
read_files read_file [] text = some text
read_files read_file (f ∷ files) text = elim (read_file f) [
  | none ↦ none
  | some contents ↦ read_files read_file files (text ++ contents)
]

unfoldable pub join : List (List ℕ) → List ℕ → List ℕ
join [] text = text
join (e ∷ expressions) text = join expressions (text ++ e)

-- Where the program's text is taken from.
unfoldable pub program_text : (List ℕ → Option (List ℕ)) → NewOptions → Option (List ℕ)
unfolding read_files join
program_text read_file o = elim o.expressions [
  | some expressions ↦ some (join expressions [])
  | none ↦ elim o.files [ some files ↦ read_files read_file files [] | none ↦ none ]
]

module _ (fuel rounds count_max : ℕ) (host : Cranelift.Host) (has_jit : Bool) where
  unfoldable pub interpret : (Machine → Ended) → Options → List ℕ → Ending
  unfolding Traits.interpret ending
  interpret program o input = ending (Traits.interpret program o.memory_size input)

  -- `match options.compiler_pass`.
  unfoldable pub run_pass : Pass → Ast.Program → Options → List ℕ → Ending
  unfolding interpret compiled
  run_pass ast program o input = interpret (λ m. seen (Plain.interpret fuel program m)) o input
  run_pass rle program o input =
      interpret (λ m. seen (Runs.interpret fuel (rle_compile count_max program) m)) o input
  run_pass peephole program o input =
      if o.unchecked
      then error_exit 2 (record { input = input; output = [] })
      else compiled (record { input = input; output = [] }) (peephole_compile count_max program)
          (λ q. interpret (λ m. seen (Nested.interpret fuel q m)) o input)
  run_pass bytecode program o input =
      compiled (record { input = input; output = [] }) (bytecode_compile count_max program)
        (λ code. interpret (λ m. seen (Flat.interpret fuel rounds code m)) o input)
  run_pass jit program o input =
      if has_jit
      then compiled (record { input = input; output = [] })
          (jit_compile count_max program (not o.unchecked))
          (λ code. interpret (interpret_state (Native.interpret fuel code)) o input)
      else error_exit 1 (record { input = input; output = [] })
  run_pass llvm program o input = ending (llvm_run fuel count_max program o.memory_size input)
  run_pass cranelift program o input =
      compiled (record { input = input; output = [] }) (cranelift_compile count_max program)
        (λ q. interpret (interpret_state (Cranelift.interpret host fuel q)) o input)

  -- `parse`, and what follows it.
  unfoldable pub run_parsed : Parsed Ast.Program → Options → List ℕ → Ending
  unfolding run_pass
  run_parsed (Parser.ok program) o input = run_pass o.compiler_pass program o input
  run_parsed (Parser.err e) o input = error_exit 2 (record { input = input; output = [] })
  run_parsed Parser.out_of_fuel o input = out_of_fuel

  unfoldable pub run_text : Option (List ℕ) → NewOptions → List ℕ → Ending
  unfolding run_parsed options_of parse_program
  run_text none o input = error_exit 1 (record { input = input; output = [] })
  run_text (some text) o input =
      run_parsed (parse_program text) (record (options_of o) { program_text = text }) input

  unfoldable pub main : (List ℕ → Option (List ℕ)) → NewOptions → List ℕ → Ending
  unfolding run_text program_text
  main read_file o input =
      if o.memory_size == 0
      then error_exit 1 (record { input = input; output = [] })
      else run_text (program_text read_file o) o input
