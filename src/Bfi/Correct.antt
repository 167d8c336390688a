-- ===== src/Bfi/Correct.antt =====
-- src/bin/bfi.rs: what the executable does with the passes, and with a syntax error.
use bf_rs.Prelude.{
  ℕ, ◌≤◌, ◌<◌, ◌≡◌, ◌≢◌, refl, ap, ◌∙◌, List, [], length, All, Bool, true, false, Option, some,
  ne→==,
}
use bf_rs.Common.{Error, Result, ok, err, panic}
use bf_rs.Common.Laws.{Yields, Yields-map, Yields-ok}
use bf_rs.Bytecode.Interpreter as Flat
use bf_rs.Prelude.{suc, ◌+◌}
use bf_rs.Ast.Interpreter as Plain
use bf_rs.Cranelift.{Host, win64}
use bf_rs.Pipeline.{bytecode_compile}
use bf_rs.Pipeline.Correct.{interpret-bytecode_compile}
use bf_rs.Bfi.{bytecode, ending}
use bf_rs.State.Valid.{IsByte, isize_max}
use bf_rs.Machine.{Io, Outcome}
use bf_rs.Machine.Laws.{IsValidMachine}
use bf_rs.Ast
use bf_rs.Ast.Parser
use bf_rs.Ast.Parser.{Parsed, parse_program}
use bf_rs.Ast.Parser.Tokens.{tokens, balance}
use bf_rs.Ast.Parser.Correct.{error_of, parse_program-balance}
use bf_rs.Traits
use bf_rs.Traits.{start}
use bf_rs.Pipeline.{peephole_compile, jit_compile}
use bf_rs.Pipeline.Correct.{interpret-rle_compile, interpret-peephole_compile}
use bf_rs.Pipeline.Backends.{jit-ends, llvm-ends, cranelift-ends}
use bf_rs.Traits.{seen}
use bf_rs.Traits.Start.{IsSize, start-IsValidMachine}
use bf_rs.Machine.Inside.{IsInside}
use bf_rs.Pipeline.{cranelift_compile}
use bf_rs.Bfi
use bf_rs.Bfi.{
  NewOptions, Options, Pass, ast, rle, bytecode, peephole, jit, llvm, cranelift, Ending, error_exit,
  ending, compiled, program_text, run_pass, run_parsed, run_text, main, options_of,
}

compiled_of_Yields {ℓ} :
    {A : Type ℓ} (io : Io) (r : Result A) (f : A → Ending) (x : Ending)
    → Yields (λ a. f a ≡ x) r
    → compiled io r f ≡ x
unfolding compiled
compiled_of_Yields io (ok a) f x h = h
compiled_of_Yields io (err e) f x h = absurd h
compiled_of_Yields io panic f x h = absurd h

-- The passes whose code has fuel for its loops only.
abbrev pub IsNested : Bool → Pass → Type 0
IsNested has_jit ast = Unit
IsNested has_jit rle = Unit
IsNested has_jit peephole = Unit
IsNested has_jit jit = has_jit ≡ true
IsNested has_jit llvm = Unit
IsNested has_jit _ = ⊥

module _ (fuel count_max : ℕ) (host : Host) (has_jit : Bool) (text : List ℕ) (p : Ast.Program)
    (o : Options) (input : List ℕ) (enough : 256 ≤ fuel) (parsed : parse_program text ≡ Parser.ok p)
    (small : length text ≤ isize_max) (fits : length text ≤ count_max) (size : IsSize o.memory_size)
    (bytes : All IsByte input) where
  abbrev valid : IsValidMachine (start o.memory_size input)
  valid = start-IsValidMachine o.memory_size input size bytes

  -- A program parsed from a text no longer than the largest slice and the largest `Count` is
  -- run with at least 256 rounds for each loop, on a memory that can be allocated and is not
  -- empty, and on bytes. Unless `--unchecked` is given, the passes for runs, the optimizer, LLVM
  -- and, where it is built in, native code end the process as the unoptimized tree does: the same
  -- exit code, output and rest of the input.
  pub run_pass-ast :
      (rounds : ℕ) (pass : Pass)
      → o.unchecked ≡ false
      → IsNested has_jit pass
      → run_pass fuel rounds count_max host has_jit pass p o input
        ≡ run_pass fuel rounds count_max host has_jit ast p o input
  unfolding run_pass Bfi.interpret Traits.interpret
  run_pass-ast rounds ast u n = refl
  run_pass-ast rounds rle u n =
      ap (λ x. ending (seen x))
        (interpret-rle_compile fuel count_max text p _ parsed small fits valid)
  run_pass-ast rounds peephole u n = rw u (
      compiled_of_Yields _ (peephole_compile count_max p) _ _ (
        Yields-map (λ q e. ap (λ x. ending (seen x)) e) (peephole_compile count_max p)
          (interpret-peephole_compile fuel count_max text p _ enough parsed small fits valid)))
  run_pass-ast rounds jit u n =
      rw (u, n)
        (compiled_of_Yields _ (jit_compile count_max p true) _ _ (
          Yields-map (λ q e. ap ending e) (jit_compile count_max p true)
            (jit-ends fuel count_max text p o.memory_size input enough parsed small fits size
              bytes)))
  run_pass-ast rounds bytecode u n = absurd n
  run_pass-ast rounds llvm u n =
      ap ending
        (llvm-ends fuel count_max text p o.memory_size input enough parsed small fits size bytes)
  run_pass-ast rounds cranelift u n = absurd n

  -- A program parsed from a text no longer than the largest slice and the largest `Count` is
  -- run with at least 256 rounds for each loop, on a memory that can be allocated, is not empty,
  -- and begins at an address that is positive and at least the length of the text and ends at or
  -- below `isize_max`, and on bytes. If the unoptimized tree does not fail, Cranelift code ends the
  -- process as the tree does, on a host whose default convention for calls is win64, which that of
  -- the called functions is.
  pub run_pass-cranelift :
      (rounds : ℕ)
      → host.default_call_conv ≡ win64
      → length text ≤ host.mem_start
      → 0 < host.mem_start
      → host.mem_start + length (start o.memory_size input).state.memory ≤ isize_max
      → IsInside (Plain.interpret fuel p (start o.memory_size input))
      → run_pass fuel rounds count_max host has_jit cranelift p o input
        ≡ run_pass fuel rounds count_max host has_jit ast p o input
  unfolding run_pass Bfi.interpret
  run_pass-cranelift rounds win above pos room inside =
      compiled_of_Yields _ (cranelift_compile count_max p) _ _ (
        Yields-map (λ q e. ap ending e) (cranelift_compile count_max p)
          (cranelift-ends fuel count_max text p o.memory_size input enough parsed small fits size
            bytes host win above pos room inside))

  -- A program parsed from a text no longer than the largest slice and the largest `Count` is
  -- run with at least 256 rounds for each loop, on a memory that can be allocated and is not
  -- empty, and on bytes. If the unoptimized tree does not want for fuel, then from some number
  -- of rounds on its bytecode ends the process as the tree does.
  pub run_pass-bytecode :
      Plain.interpret fuel p (start o.memory_size input) ≢ Outcome.out_of_fuel
      → (n : ℕ) × ((k : ℕ)
          → run_pass fuel (n + suc k) count_max host has_jit bytecode p o input
            ≡ run_pass fuel 0 count_max host has_jit ast p o input)
  unfolding run_pass Bfi.interpret Traits.interpret compiled
  run_pass-bytecode t =
      let m = start o.memory_size input in
      let (code, e, (n, h)) =
        Yields-ok
          (λ code.
            (n : ℕ) × ((k : ℕ) → Flat.interpret fuel (n + suc k) code m ≡ Plain.interpret fuel p m))
          (bytecode_compile count_max p)
          (interpret-bytecode_compile fuel count_max text p m enough parsed small fits valid t) in
      (n, λ k. rw e (ap (λ x. ending (seen x)) (h k)))

error_of-err : (r : Parsed Ast.Program) (e : Error) → error_of r ≡ some (some e) → r ≡ Parser.err e
error_of-err (Parser.ok p) e h = absurd (cc)
error_of-err (Parser.err x) e h = cc
error_of-err Parser.out_of_fuel e h = absurd (cc)

-- Where the memory size is not 0 and the command line gives a text in whose brackets the scan
-- finds an error, the process ends with code 2, and nothing is read or written.
pub main-balance :
    (fuel rounds count_max : ℕ) (host : Host) (has_jit : Bool)
    (read_file : List ℕ → Option (List ℕ)) (o : NewOptions) (text input : List ℕ) (e : Error)
    → o.memory_size ≢ 0
    → program_text read_file o ≡ some text
    → balance 0 (tokens text) ≡ some e
    → main fuel rounds count_max host has_jit read_file o input
      ≡ error_exit 2 (record { input = input; output = [] })
unfolding main run_text run_parsed
main-balance fuel rounds count_max host has_jit read_file o text input e m t b =
    let failed = error_of-err (parse_program text) e (parse_program-balance text ∙ ap some b) in
    rw (main, ne→== o.memory_size 0 m, t, failed) refl
