-- ===== src/Llvm/Graph/Run.antt =====
-- src/llvm/compiler.rs: a call of the function that `Compiler` builds.
use bf_rs.Prelude.{
  ℕ, zero, suc, ◌+◌, ◌<◌, ◌≤◌, ◌≡◌, ◌≢◌, refl, some, replicate, sym, subst, length-replicate, ap,
  ◌∙◌, inl, inr, List, [], ◌∷◌, ◌++◌, append-nil, All, arith,
}
use mathlib.Core.Option
use bf_rs.Common.Laws.{Yields, Yields-bind}
use bf_rs.State
use bf_rs.State.Valid.{IsByte, isize_max, with_capacity-IsValid}
use bf_rs.Machine.{Io, Machine, Outcome, done, failed, panicked, out_of_fuel}
use bf_rs.Rts.{okay, underflow, overflow, epilogue}
use bf_rs.Tree.{AllInstr}
use bf_rs.Peephole
use bf_rs.Peephole.Interpreter as Nested
use bf_rs.Peephole.Safety.{IsFine}
use bf_rs.Llvm.Ir
use bf_rs.Llvm.Ir.{set_first, allocated, with_memory, Value, Instr, Blocks, Regs, step, run}
use bf_rs.Llvm.Wrapper.{Builder}
use bf_rs.Llvm.Entry.{prologue}
use bf_rs.Llvm.Graph
use bf_rs.Llvm.Graph.{build, compile_block, empty}
use bf_rs.Llvm.Graph.Data.{put_ne}
use bf_rs.Llvm.Graph.Leads.{Leads, proceed-Leads, bind-Leads, here-Leads}
use bf_rs.Llvm.Graph.Moves.{Fits}
use bf_rs.Llvm.Graph.Grows.{
  insert_all, IsFresh, Since, Since-refl, insert_all-Since, Extends, insert_all-Extends, left-Tail,
  blank-Tail, insert_all-Tail,
}
use bf_rs.Llvm.Graph.Emits.{compiler, HasEnds, Emits}
use bf_rs.Llvm.Graph.Correct.{program-Emits}

-- The entry, before and behind the instructions of the prologue.
abbrev opened : Builder
opened = record empty { count = 3 }

abbrev first_code : ℕ → List Instr
first_code size =
    Ir.alloca
    ∷ Ir.array_alloca (Value.word size)
    ∷ Ir.call 0 Value.memset
        (Value.array ∷ Value.byte 0 ∷ Value.word size ∷ Value.word 0 ∷ Value.word 0 ∷ [])
    ∷ Ir.store (Value.word 0) Value.slot
    ∷ []

abbrev entry : ℕ → Builder
entry size = (Graph.prologue size empty).1

opened-IsFresh : IsFresh opened
opened-IsFresh = record { within = omega arith; blank = λ j _. refl }

entry-Since : (size : ℕ) → Since opened (entry size)
entry-Since size =
    insert_all-Since (first_code size) 1 opened opened (Since-refl opened opened-IsFresh)

-- The fill reaches the end of the memory that was allocated, and not further.
set_first-allocated :
    (undefined : ℕ → ℕ) (b n : ℕ) → set_first n b (allocated undefined n) ≡ some (replicate n b)
set_first-allocated undefined b zero = refl
set_first-allocated undefined b (suc n) =
    ap (Option.map (λ rest. b ∷ rest)) (set_first-allocated undefined b n)

module _ (undefined : ℕ → ℕ) (size : ℕ) where
  -- The prologue leads from any machine to one with an empty memory of that size.
  prologue-Leads :
      (F : Blocks) (code : List Instr) (regs : Regs) (m : Machine)
      → Leads undefined F (first_code size ++ code) regs m (done (prologue size m.io)) code
  unfolding step prologue
  prologue-Leads F code regs m = proceed-Leads undefined F _ _ code regs regs m m _ refl (
      proceed-Leads undefined F _ _ code regs regs m _ _ refl (
        proceed-Leads undefined F _ _ code regs regs _ _ _
          (ap
            (with_memory regs
              (record { state = record m.state { memory = allocated undefined size }; io = m.io }))
            (set_first-allocated undefined 0 size))
          (proceed-Leads undefined F _ _ code regs regs _ _ _ refl
            (here-Leads undefined F code regs _))))

  -- From some number of instructions on, the run has returned.
  abbrev Returns : Blocks → List Instr → Regs → Machine → Outcome → Type 0
  Returns F code regs m o = (n : ℕ) × ((k : ℕ) → run undefined (n + k) F code regs m ≡ epilogue o)

  leads-Returns :
      (F : Blocks) (code rest : List Instr) (regs : Regs) (m : Machine) (o : Outcome)
      → Leads undefined F code regs m o (Ir.ret (Value.word okay) ∷ rest)
      → o ≢ out_of_fuel
      → Returns F code regs m o
  unfolding Leads run step epilogue
  leads-Returns F code rest regs m (done m') (regs', n, h) x = (
    n + 1,
    λ k.
        let one : n + 1 + k ≡ n + suc k = omega arith in
        ap (λ j. run undefined j F code regs m) one ∙ h (suc k),
  )
  leads-Returns F code rest regs m (failed e io) h x = h
  leads-Returns F code rest regs m (panicked io) h x = h
  leads-Returns F code rest regs m out_of_fuel h x = absurd (x refl)

-- The three returns, behind a program that is emitted right.
module _ (undefined : ℕ → ℕ) (size : ℕ) (b : Builder) (f : Machine → Outcome)
    (body : Emits undefined size (entry size) b f) where
  abbrev at_underflow : Builder
  at_underflow = record (insert_all (Ir.ret (Value.word okay) ∷ []) b) { position = 1 }

  abbrev at_overflow : Builder
  at_overflow = record (insert_all (Ir.ret (Value.word underflow) ∷ []) at_underflow) {
    position = 2;
  }

  abbrev final : Blocks
  final = (Graph.epilogue (compiler size) b).1.blocks

  elsewhere : (j : ℕ) → 0 < j → j < 3 → j ≢ b.position
  elsewhere j from to = elim body.since.place [
    | inl e ↦ λ x. omega (arith, e, x, from)
    | inr l ↦ λ x. omega (arith, l, x, to)
  ]

  label-blank : (j : ℕ) → 0 < j → j < 3 → at_underflow.blocks j ≡ []
  label-blank j from to =
      put_ne b.blocks b.position (b.blocks b.position ++ (Ir.ret (Value.word okay) ∷ [])) j
        (elsewhere j from to)
      ∙ body.since.kept j to (λ e. omega (arith, e, from))
      ∙ (entry-Since size).kept j to (λ e. omega (arith, e, from))

  final-Extends : Extends final (insert_all (Ir.ret (Value.word overflow) ∷ []) at_overflow)
  final-Extends j = ([], sym (append-nil (final j)))

  at_overflow-Extends : Extends final at_overflow
  at_overflow-Extends =
      insert_all-Extends final (Ir.ret (Value.word overflow) ∷ []) at_overflow final-Extends

  at_underflow-Extends : Extends final at_underflow
  at_underflow-Extends =
      insert_all-Extends final (Ir.ret (Value.word underflow) ∷ []) at_underflow at_overflow-Extends

  final-HasEnds : HasEnds final
  final-HasEnds =
      let (rest₁, t₁) =
        left-Tail final (Ir.ret (Value.word underflow) ∷ []) at_underflow at_overflow-Extends in
      let (rest₂, t₂) =
        left-Tail final (Ir.ret (Value.word overflow) ∷ []) at_overflow final-Extends in
      let blank₂ =
        put_ne at_underflow.blocks 1 (at_underflow.blocks 1 ++ (Ir.ret (Value.word underflow) ∷ []))
          2 (λ e. omega (arith, e))
        ∙ label-blank 2 (omega arith) (omega arith) in
      record {
        after_underflow = rest₁;
        at_underflow =
            blank-Tail final at_underflow _ (label-blank 1 (omega arith) (omega arith)) t₁;
        after_overflow = rest₂;
        at_overflow = blank-Tail final at_overflow _ blank₂ t₂;
      }

  final-Returns :
      (m : Machine) (regs : Regs)
      → Fits size (prologue size m.io)
      → f (prologue size m.io) ≢ out_of_fuel
      → Returns undefined size final (final 0) regs m (f (prologue size m.io))
  final-Returns m regs h x =
      let m₀ = prologue size m.io in
      let ret = Ir.ret (Value.word okay) ∷ [] in
      let (rest, t) = left-Tail final ret b at_underflow-Extends in
      let (code, at_code, go) =
        body.runs final (insert_all-Extends final ret b at_underflow-Extends) final-HasEnds
          (ret ++ rest) t in
      let at_start = insert_all-Tail final (first_code size) opened code at_code in
      subst (λ c. Returns undefined size final c regs m (f m₀)) (sym at_start)
        (leads-Returns undefined size final (first_code size ++ code) rest regs m (f m₀)
          (bind-Leads undefined final (Fits size) (first_code size ++ code) code (ret ++ rest) regs
            m (done m₀) f h (prologue-Leads undefined size final code regs m)
            (λ regs₁ m₁ h₁. go m₁ h₁ regs₁))
          x)

prologue-Fits :
    (size : ℕ) (io : Io)
    → 0 < size
    → size ≤ isize_max
    → All IsByte io.input
    → Fits size (prologue size io)
unfolding prologue State.with_capacity
prologue-Fits size io h k bytes = (
  record { valid = with_capacity-IsValid size h k; input_bytes = bytes },
  length-replicate {0} size zero,
)

-- For a program without jumps, whose amounts are bytes and whose offsets are positive and no more
-- than the largest slice, a memory that can be allocated and is not empty, and an input of bytes,
-- the function is built without panic. Whatever memory holds that was just allocated, a run of its
-- basic blocks from the first returns, once it is given enough steps, what the interpreter of the
-- program ends with, if the interpreter ends within its fuel: the same result code, output and rest
-- of the input.
pub run-build :
    (undefined : ℕ → ℕ) (fuel size : ℕ) (p : Peephole.Program) (m : Machine) (regs : Regs)
    → AllInstr IsFine p
    → 0 < size
    → size ≤ isize_max
    → All IsByte m.io.input
    → Nested.interpret fuel p (prologue size m.io) ≢ out_of_fuel
    → Yields
        (λ blocks.
          (n : ℕ) × ((k : ℕ)
            → run undefined (n + k) blocks (blocks 0) regs m
              ≡ epilogue (Nested.interpret fuel p (prologue size m.io))))
        (build size p)
unfolding build
run-build undefined fuel size p m regs f h k bytes x =
    Yields-bind _ (compile_block (compiler size) p (entry size)) _
      (program-Emits undefined size fuel p (entry size) f (entry-Since size).fresh)
      (λ b body.
        final-Returns undefined size b (Nested.interpret fuel p) body m regs
          (prologue-Fits size m.io h k bytes) x)
