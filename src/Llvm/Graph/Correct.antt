-- ===== src/Llvm/Graph/Correct.antt =====
-- src/llvm/compiler.rs: `compile_block`, and the interpreter of src/peephole.
use bf_rs.Prelude.{ℕ, ◌+◌}
use bf_rs.Common.{Instruction}
use bf_rs.Common.Laws.{Yields, Yields-bind, Yields-map}
use bf_rs.Machine.{Machine, Outcome, done, ◌>>=◌, while_nonzero}
use bf_rs.Machine.Laws.{Post, IsValidMachine, Preserves, while_nonzero-Preserves}
use bf_rs.Tree
use bf_rs.Tree.{nil, ◌⨾◌, instr, loop, AllInstr, AllStatement, interpret_statement}
use bf_rs.Peephole
use bf_rs.Peephole.Extent.{
  KeepsSize, exec-KeepsSize, interpret-KeepsSize, statement-KeepsSize, Post-Leaves,
}
use bf_rs.Peephole.Interpreter as Nested
use bf_rs.Peephole.Safety.{IsFine, exec-Preserves, interpret-Preserves}
use bf_rs.Llvm.Wrapper.{Builder}
use bf_rs.Llvm.Graph
use bf_rs.Llvm.Graph.{emit, compile_block, compile_statement}
use bf_rs.Llvm.Graph.Leads.{here-Leads, bind-Leads}
use bf_rs.Llvm.Graph.Moves.{Fits}
use bf_rs.Llvm.Graph.Grows.{IsFresh, Since-refl, Since-trans, Extends-Since}
use bf_rs.Llvm.Graph.Emits.{compiler, Emits}
use bf_rs.Llvm.Graph.Emits.Straight.{set_zero-Emits, add-Emits, in_-Emits, out-Emits}
use bf_rs.Llvm.Graph.Emits.Moves.{right-Emits, left-Emits}
use bf_rs.Llvm.Graph.Emits.Loop.{at_body, at_body-Since, loop-Emits}
use bf_rs.Llvm.Graph.Emits.Transfer.{offset_add_right-Emits, offset_add_left-Emits}

abbrev KeepsFit : ℕ → (Machine → Outcome) → Type 0
KeepsFit size f = (m : Machine) → Fits size m → Post (Fits size) (f m)

keeps_fit : (size : ℕ) (f : Machine → Outcome) → Preserves f → KeepsSize size f → KeepsFit size f
keeps_fit size f p k m h = Post-Leaves size IsValidMachine (f m) (p m h.0) (k m h.1)

module _ (undefined : ℕ → ℕ) (size fuel : ℕ) where
  nil-Emits : (b : Builder) → IsFresh b → Emits undefined size b b done
  nil-Emits b fresh = record {
    since = Since-refl b fresh;
    runs = λ F extends ends code' t. (code', t, λ m h regs. here-Leads undefined F code' regs m);
  }

  -- One after the other.
  seq-Emits :
      (b b₁ b₂ : Builder) (f g : Machine → Outcome)
      → KeepsFit size f
      → Emits undefined size b b₁ f
      → Emits undefined size b₁ b₂ g
      → Emits undefined size b b₂ (λ m. f m >>= g)
  seq-Emits b b₁ b₂ f g keeps e₁ e₂ = record {
    since = Since-trans b b₁ b₂ e₁.since e₂.since;
    runs = λ F extends ends code' t.
        let (code₁, t₁, run₁) = e₂.runs F extends ends code' t in
        let (code, t₀, run₀) = e₁.runs F (Extends-Since F b₁ b₂ e₂.since extends) ends code₁ t₁ in
        (
          code,
          t₀,
          λ m h regs.
              bind-Leads undefined F (Fits size) code code₁ code' regs m (f m) g (keeps m h)
                (run₀ m h regs) (λ regs₁ m₁ h₁. run₁ m₁ h₁ regs₁),
        );
  }

  -- A search.
  search-Emits :
      (b : Builder) (fresh : IsFresh b) (i : Instruction) (b' : Builder)
      → IsFine i
      → Emits undefined size (at_body size b fresh) b' (Nested.exec fuel i)
      → Emits undefined size b
          (Graph.close_loop (compiler size) (b.count, b.count + 1 + 1) b').1
          (while_nonzero fuel (Nested.exec fuel i))
  search-Emits b fresh i b' fine body =
      loop-Emits size b fresh undefined fuel b' (Nested.exec fuel i) body (
        keeps_fit size (Nested.exec fuel i) (exec-Preserves fuel i fine)
          (exec-KeepsSize size fuel i))

  emit-Emits :
      (i : Instruction) (b : Builder)
      → IsFine i
      → IsFresh b
      → Yields (λ b'. Emits undefined size b b' (Nested.exec fuel i)) (emit (compiler size) i b)
  unfolding emit Nested.exec
  emit-Emits (Instruction.right n) b f fresh = right-Emits undefined size b fresh n f.1
  emit-Emits (Instruction.left n) b f fresh = left-Emits undefined size b fresh n f.1
  emit-Emits (Instruction.add n) b f fresh = add-Emits undefined size b fresh n
  emit-Emits Instruction.in_ b f fresh = in_-Emits undefined size b fresh
  emit-Emits Instruction.out b f fresh = out-Emits undefined size b fresh
  emit-Emits Instruction.set_zero b f fresh = set_zero-Emits undefined size b fresh
  emit-Emits (Instruction.find_zero_right n) b f fresh =
      let s = at_body-Since size b fresh in
      search-Emits b fresh (Instruction.right n) _ f
        (right-Emits undefined size (at_body size b fresh) s.fresh n f.1)
  emit-Emits (Instruction.find_zero_left n) b f fresh =
      let s = at_body-Since size b fresh in
      search-Emits b fresh (Instruction.left n) _ f
        (left-Emits undefined size (at_body size b fresh) s.fresh n f.1)
  emit-Emits (Instruction.offset_add_right n) b f fresh =
      offset_add_right-Emits undefined size b fresh n f.1
  emit-Emits (Instruction.offset_add_left n) b f fresh =
      offset_add_left-Emits undefined size b fresh n f.1
  emit-Emits (Instruction.jump_zero n) b f fresh = absurd f
  emit-Emits (Instruction.jump_not_zero n) b f fresh = absurd f

  mutual
    unfolding compile_block Nested.interpret Tree.interpret

    pub program-Emits :
        (p : Peephole.Program) (b : Builder)
        → AllInstr IsFine p
        → IsFresh b
        → Yields
            (λ b'. Emits undefined size b b' (Nested.interpret fuel p))
            (compile_block (compiler size) p b)
    program-Emits nil b f fresh = nil-Emits b fresh
    program-Emits (s ⨾ p) b f fresh =
        Yields-bind _ (compile_statement (compiler size) s b) _ (statement-Emits s b f.0 fresh)
          (λ b₁ e₁.
            Yields-map (λ b₂ e₂. seq-Emits b b₁ b₂ _ _ (statement-KeepsFit s f.0) e₁ e₂)
              (compile_block (compiler size) p b₁) (program-Emits p b₁ f.1 e₁.since.fresh))

    statement-Emits :
        (s : Peephole.Statement) (b : Builder)
        → AllStatement IsFine s
        → IsFresh b
        → Yields
            (λ b'. Emits undefined size b b' (interpret_statement Nested.exec fuel s))
            (compile_statement (compiler size) s b)
    statement-Emits (instr i) b f fresh = emit-Emits i b f fresh
    statement-Emits (loop body) b f fresh =
        let s = at_body-Since size b fresh in
        Yields-bind _ (compile_block (compiler size) body (at_body size b fresh)) _
          (program-Emits body (at_body size b fresh) f s.fresh)
          (λ b' e. loop-Emits size b fresh undefined fuel b' (Nested.interpret fuel body) e (
            keeps_fit size (Nested.interpret fuel body) (interpret-Preserves fuel body f)
              (interpret-KeepsSize size fuel body)))

    statement-KeepsFit :
        (s : Peephole.Statement)
        → AllStatement IsFine s
        → KeepsFit size (interpret_statement Nested.exec fuel s)
    statement-KeepsFit (instr i) f =
        keeps_fit size (Nested.exec fuel i) (exec-Preserves fuel i f) (exec-KeepsSize size fuel i)
    statement-KeepsFit (loop body) f =
        keeps_fit size _
          (while_nonzero-Preserves fuel (Nested.interpret fuel body)
            (interpret-Preserves fuel body f))
          (statement-KeepsSize size fuel (loop body))
