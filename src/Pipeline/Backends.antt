-- ===== src/Pipeline/Backends.antt =====
-- src/jit/mod.rs, src/llvm/compiler.rs and src/cranelift/compiler.rs: what the three back ends make
-- of a parsed program, from its start to its result code.
use bf_rs.Prelude.{
  ℕ, ◌+◌, ◌≤◌, ◌<◌, ◌≡◌, refl, sym, ap, subst, ◌∙◌, List, length, All, true, Option, none, some,
  arith,
}
use bf_rs.Common.Laws.{Yields, Yields-map, Yields-ok}
use bf_rs.State
use bf_rs.State.Valid.{IsByte, isize_max}
use bf_rs.Machine.Laws.{IsValidMachine}
use bf_rs.Machine.Inside.{IsInside}
use bf_rs.Tree.{AllInstr}
use bf_rs.Tree.Laws.{AllInstr-map}
use bf_rs.Ast
use bf_rs.Ast.Interpreter as Plain
use bf_rs.Ast.Parser.{parse_program}
use bf_rs.Ast.Parser
use bf_rs.Rle.Compiler as Encoder
use bf_rs.Rle.Runs.{compile-IsRun_size}
use bf_rs.Peephole.Interpreter as Nested
use bf_rs.Peephole.Safety.{IsFine, IsFineUpTo}
use bf_rs.Peephole.Correct.{compile-IsFineUpTo}
use bf_rs.Jit.Code as Native
use bf_rs.Cranelift
use bf_rs.Cranelift.Correct.{IsAddressable, addressable, interpret-cranelift}
use bf_rs.Traits
use bf_rs.Traits.{Ended, ended, seen, start}
use bf_rs.Traits.Start.{IsSize, start-IsValidMachine}
use bf_rs.Rts.{interpret_state}
use bf_rs.Rts.Errors.{HasRunErrors, interpret-HasRunErrors}
use bf_rs.Rts.Correct.{interpret_state-seen}
use bf_rs.Llvm.Run.{compile_and_run-interpret}
use bf_rs.Pipeline.{rle_compile, peephole_compile, jit_compile, llvm_run, cranelift_compile}
use bf_rs.Pipeline.Correct.{parse_program-IsParsed, Yields-both, interpret-peephole_compile}
use bf_rs.Pipeline.Native.{interpret-jit_compile}

start-pointer : (size : Option ℕ) (input : List ℕ) → (start size input).state.pointer ≡ 0
unfolding start State.with_capacity State.new
start-pointer (some size) input = refl
start-pointer none input = refl

-- What `peephole_compile` makes of a parsed program is fine up to the length of the text.
pub peephole_compile-IsFineUpTo :
    (count_max : ℕ) (text : List ℕ) (p : Ast.Program) (bound : ℕ)
    → parse_program text ≡ Parser.ok p
    → length text ≤ bound
    → 0 < bound
    → bound ≤ isize_max
    → Yields (AllInstr (IsFineUpTo bound)) (peephole_compile count_max p)
unfolding peephole_compile rle_compile
peephole_compile-IsFineUpTo count_max text p bound e h pos small =
    let i = parse_program-IsParsed text p e in
    compile-IsFineUpTo bound (Encoder.compile count_max p) small
      (compile-IsRun_size count_max bound p pos (omega (arith, i.small)) i.plain)

module _ (fuel count_max : ℕ) (text : List ℕ) (p : Ast.Program) (size : Option ℕ) (input : List ℕ)
    (enough : 256 ≤ fuel) (parsed : parse_program text ≡ Parser.ok p)
    (small : length text ≤ isize_max) (fits : length text ≤ count_max) (can : IsSize size)
    (bytes : All IsByte input) where
  abbrev valid : IsValidMachine (start size input)
  valid = start-IsValidMachine size input can bytes

  pub optimized :
      Yields
        (λ q.
          AllInstr IsFine q
          × (Nested.interpret fuel q (start size input)
              ≡ Plain.interpret fuel p (start size input)))
        (peephole_compile count_max p)
  optimized =
      Yields-both (AllInstr IsFine)
        (λ q.
          Nested.interpret fuel q (start size input) ≡ Plain.interpret fuel p (start size input))
        (peephole_compile count_max p)
        (peephole_compile-IsFineUpTo count_max text p isize_max parsed small (omega arith)
          (omega arith))
        (interpret-peephole_compile fuel count_max text p _ enough parsed small fits valid)

  plain-HasRunErrors : HasRunErrors (Plain.interpret fuel p (start size input))
  plain-HasRunErrors =
      let (q, e, (f, same)) = Yields-ok _ (peephole_compile count_max p) optimized in
      subst HasRunErrors same (interpret-HasRunErrors fuel q (start size input))

  abbrev plain_result : Ended
  plain_result = Traits.interpret (λ m. seen (Plain.interpret fuel p m)) size input

  -- A program parsed from a text no longer than the largest slice and the largest `Count` is
  -- compiled to checked native code without panic. On a memory that can be allocated and is not
  -- empty, an input of bytes, and at least 256 rounds for each loop, what `interpret_state` makes of
  -- the code's result is the result, output and rest of the input of the program itself.
  pub jit-ends :
      Yields
        (λ code.
          Traits.interpret (interpret_state (Native.interpret fuel code)) size input ≡ plain_result)
        (jit_compile count_max p true)
  unfolding Traits.interpret
  jit-ends =
      Yields-map
        (λ code e.
          interpret_state-seen (Native.interpret fuel code) (start size input) _
            (start-pointer size input) e plain-HasRunErrors)
        (jit_compile count_max p true)
        (interpret-jit_compile fuel count_max text p _ enough parsed small fits valid)

  -- For a program parsed from a text no longer than the largest slice and the largest `Count`, on
  -- a memory that can be allocated and is not empty, an input of bytes, and at least 256 rounds for
  -- each loop, `llvm_run` ends with the result, output and rest of the input of the program itself.
  pub llvm-ends : llvm_run fuel count_max p size input ≡ plain_result
  unfolding llvm_run Traits.interpret
  llvm-ends =
      let (q, e, (f, same)) = Yields-ok _ (peephole_compile count_max p) optimized in
      rw (e, llvm_run) (compile_and_run-interpret fuel q size input f can bytes ∙ ap seen same)

  -- Cranelift code on a host that calls by win64, where the run meets no end of the memory.
  pub cranelift-ends :
      (host : Cranelift.Host)
      → host.default_call_conv ≡ Cranelift.win64
      → length text ≤ host.mem_start
      → 0 < host.mem_start
      → host.mem_start + length (start size input).state.memory ≤ isize_max
      → IsInside (Plain.interpret fuel p (start size input))
      → Yields
          (λ q.
            Traits.interpret (interpret_state (Cranelift.interpret host fuel q)) size input
            ≡ plain_result)
          (cranelift_compile count_max p)
  unfolding cranelift_compile Traits.interpret
  cranelift-ends host win above pos room inside =
      let m = start size input in
      Yields-map
        (λ q (f, same).
          interpret_state-seen (Cranelift.interpret host fuel q) m _ (start-pointer size input)
            (interpret-cranelift host fuel q m room win
                (AllInstr-map (IsFineUpTo host.mem_start) (IsAddressable host.mem_start)
                  (λ i g. addressable host.mem_start i (omega arith) g) q f)
                valid (subst IsInside (sym same) inside)
              ∙ same)
            plain-HasRunErrors)
        (peephole_compile count_max p)
        (Yields-both (AllInstr (IsFineUpTo host.mem_start))
          (λ q. Nested.interpret fuel q m ≡ Plain.interpret fuel p m) (peephole_compile count_max p)
          (peephole_compile-IsFineUpTo count_max text p host.mem_start parsed above pos
            (omega arith))
          (interpret-peephole_compile fuel count_max text p m enough parsed small fits valid))
